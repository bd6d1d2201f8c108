-- ===== src/Rpc/Record.antt =====
-- rpc/record.go: record marking on a stream.
pub mod Framing
pub mod Limits
use go_nfs_client.Prelude.{
  ℕ, zero, suc, ◌+◌, ◌*◌, ◌/◌, ◌%◌, ◌^◌, Bool, Option, none, some, [], ◌++◌, if◌then◌else◌, ltb,
  ◌==◌, length,
}
use go_nfs_client.Xdr.Io.{
  Bytes, IoError, eof, unexpected_eof, other, Stream, Writer, write_to, full, short, read_full,
  put_uint32, big_endian,
}

abbrev pub last_fragment_flag : ℕ
last_fragment_flag = 2 ^ 31

abbrev pub fragment_size_mask : ℕ
fragment_size_mask = 0x7fff_ffff

abbrev pub max_fragment_size : ℕ
max_fragment_size = 256 * 2 ^ 20

abbrev pub max_message_size : ℕ
max_message_size = 512 * 2 ^ 20

-- `out_of_fuel` has no counterpart in the program.
pub data RecordError : Type 0 where
  io : IoError → RecordError
  fragment_too_large out_of_fuel : RecordError

-- `lastFragmentFlag | n`, for a uint32 `n`.
abbrev pub with_last_flag : ℕ → ℕ
with_last_flag n = if ltb n last_fragment_flag then n + last_fragment_flag else n

-- `uint32(len(payload))` keeps the low 32 bits.
unfoldable pub write_record : Bytes → Writer → Option RecordError × Writer
write_record payload w =
    let size = length payload % 2 ^ 32 in
    if ltb fragment_size_mask size
    then (some fragment_too_large, w)
    else let (header_error, w₁) = write_to (put_uint32 (with_last_flag size)) w in
      elim header_error [
        | some e ↦ (some (io e), w₁)
        | none ↦
            let (payload_error, w₂) = write_to payload w₁ in
            elim payload_error [ some e ↦ (some (io e), w₂) | none ↦ (none, w₂) ]
      ]

pub data Message : Type 0 where
  message : Bytes → Message
  failed : RecordError → Message

-- The stream ends inside a fragment's payload: io.EOF becomes io.ErrUnexpectedEOF.
abbrev pub payload_error : IoError → IoError
payload_error eof = unexpected_eof
payload_error unexpected_eof = unexpected_eof
payload_error (other n) = other n

-- `marker & lastFragmentFlag != 0` and `marker & fragmentSizeMask`, for a uint32 `marker`.
abbrev pub is_last : ℕ → Bool
is_last marker = marker / 2 ^ 31 % 2 == 1

abbrev pub fragment_size : ℕ → ℕ
fragment_size marker = marker % 2 ^ 31

-- The loop of ReadRecord: a round reads one fragment and appends it to `msg`. All three branches
-- on a failed read of the header return its error.
unfoldable pub read_loop : ℕ → Bytes → Stream → Message × Stream
read_loop zero msg r = (failed out_of_fuel, r)
read_loop (suc fuel) msg r = elim (read_full 4 r) [
  | short e r' ↦ (failed (io e), r')
  | full hdr r' ↦
      let size = fragment_size (big_endian 0 hdr) in
      if ltb max_fragment_size size
      then (failed fragment_too_large, r')
      else if ltb max_message_size (length msg + size)
      then (failed fragment_too_large, r')
      else elim (read_full size r') [
        | short e r'' ↦ (failed (io (payload_error e)), r'')
        | full frag r'' ↦
            let rest = read_loop fuel (msg ++ frag) r'' in
            if is_last (big_endian 0 hdr) then (message (msg ++ frag), r'') else rest
      ]
]

-- Each round takes four bytes at least, so the loop has fuel enough for a stream of finitely many bytes.
-- The program's loop has no bound of its own, and goes on while a connection brings empty fragments.
unfoldable pub read_record : Stream → Message × Stream
unfolding read_loop
read_record r = read_loop (suc (length r.input)) [] r
