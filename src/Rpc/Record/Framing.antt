-- ===== src/Rpc/Record/Framing.antt =====
-- Reassembly of fragments, and the limits of ReadRecord.
use go_nfs_client.Prelude.{
  ℕ, zero, suc, ◌+◌, ◌^◌, ◌≤◌, ◌<◌, ◌≡◌, Bool, true, false, none, List, [], ◌∷◌, ◌++◌, arith,
  if◌then◌else◌, length, length-append, append_assoc, le→ltb, lt→ltb, ◌%◌, All, ap, ◌∙◌,
}
use go_nfs_client.Xdr.Io.{
  Bytes, IoError, Stream, put_uint32, big_endian-put_uint32, read_full-put_uint32, read_full-append,
}
use go_nfs_client.Rpc.Record.{
  max_fragment_size, fragment_size_mask, last_fragment_flag, max_message_size, is_last,
  fragment_size, write_record, message, read_loop, read_record,
}

-- The header of a fragment of `n` bytes.
unfoldable pub marker : Bool → ℕ → ℕ
marker last n = if last then n + 2 ^ 31 else n

-- A fragment as RFC 5531 section 11 frames it.
unfoldable pub fragment : Bool → Bytes → Bytes
unfolding marker
fragment last p = put_uint32 (marker last (length p)) ++ p

-- A message in fragments: those before the last one, and the last.
unfoldable pub frame : List Bytes → Bytes → Bytes
unfolding fragment
frame [] end = fragment true end
frame (p ∷ ps) end = fragment false p ++ frame ps end

unfoldable pub join : List Bytes → Bytes → Bytes
join [] end = end
join (p ∷ ps) end = p ++ join ps end

abbrev pub stream : Bytes → IoError → Stream
stream input ending = record { input = input; ending = ending }

marker_fields :
    (last : Bool) (n : ℕ)
    → n < 2 ^ 31
    → (marker last n < 2 ^ 32)
      × (fragment_size (marker last n) ≡ n)
      × (is_last (marker last n) ≡ last)
unfolding marker
marker_fields true n h = ground arith
marker_fields false n h = ground arith

-- One round of the loop on a fragment.
read_loop-fragment :
    (fuel : ℕ) (last : Bool) (msg p rest : Bytes) (ending : IoError)
    → length p ≤ max_fragment_size
    → length msg + length p ≤ max_message_size
    → read_loop (suc fuel) msg (stream (fragment last p ++ rest) ending) ≡ (
        if last
        then (message (msg ++ p), stream rest ending)
        else read_loop fuel (msg ++ p) (stream rest ending))
unfolding read_loop fragment
read_loop-fragment fuel last msg p rest ending h hm =
    let (fits, size, flag) = marker_fields last (length p) (omega arith) in
    ground (
      arith,
      append_assoc (put_uint32 (marker last (length p))) p rest,
      read_full-put_uint32 (marker last (length p)) (p ++ rest) ending,
      big_endian-put_uint32 (marker last (length p)) fits,
      size,
      flag,
      read_full-append p rest ending,
    )

-- Fragments within the limit of one fragment.
abbrev pub Fit : List Bytes → Bytes → Type 0
Fit ps end = All (λ p. length p ≤ max_fragment_size) ps × (length end ≤ max_fragment_size)

read_loop-frame :
    (ps : List Bytes) (end msg rest : Bytes) (ending : IoError) (fuel : ℕ)
    → Fit ps end
    → length msg + length (join ps end) ≤ max_message_size
    → length ps < fuel
    → read_loop fuel msg (stream (frame ps end ++ rest) ending)
      ≡ (message (msg ++ join ps end), stream rest ending)
unfolding frame join
read_loop-frame ps end msg rest ending zero h total f = absurd (omega arith)
read_loop-frame [] end msg rest ending (suc fuel) h total f =
    read_loop-fragment fuel true msg end rest ending h.1 total
read_loop-frame (p ∷ ps) end msg rest ending (suc fuel) h total f =
    let parts = length-append p (join ps end) in
    rw (append_assoc (fragment false p) (frame ps end) rest) (
      read_loop-fragment fuel false msg p (frame ps end ++ rest) ending h.0.0 (omega arith)
      ∙ read_loop-frame ps end (msg ++ p) rest ending fuel (h.0.1, h.1)
          (omega (arith, length-append msg p)) (omega arith)
      ∙ ap (λ (m : Bytes). (message m, stream rest ending)) (append_assoc msg p (join ps end)))

length-frame : (ps : List Bytes) (end : Bytes) → length ps ≤ length (frame ps end)
unfolding frame fragment put_uint32
length-frame [] end = omega arith
length-frame (p ∷ ps) end = omega (arith, length-frame ps end, length-append p (frame ps end))

-- However a server splits a message into fragments, ReadRecord puts it together again and leaves
-- what follows on the stream, if every fragment and the whole keep to the limits.
pub read_record-frame :
    (ps : List Bytes) (end rest : Bytes) (ending : IoError)
    → Fit ps end
    → length (join ps end) ≤ max_message_size
    → read_record (stream (frame ps end ++ rest) ending)
      ≡ (message (join ps end), stream rest ending)
unfolding read_record
read_record-frame ps end rest ending h total =
    read_loop-frame ps end [] rest ending (suc (length (frame ps end ++ rest))) h (omega arith)
      (omega (arith, length-frame ps end, length-append (frame ps end) rest))

-- What WriteRecord puts on a connection that takes it, ReadRecord takes off, up to the size of a
-- fragment; the record is the payload as one last fragment.
pub read_record-write_record :
    (payload sent rest : Bytes) (ending : IoError)
    → length payload ≤ max_fragment_size
    → (write_record payload (record { sent = sent; fails = λ _ _. none })
        ≡ (none, record { sent = sent ++ frame [] payload; fails = λ _ _. none }))
      × (read_record (stream (frame [] payload ++ rest) ending)
          ≡ (message payload, stream rest ending))
unfolding write_record join frame fragment
read_record-write_record payload sent rest ending h =
    let size : length payload % 2 ^ 32 ≡ length payload = omega arith in
    (
      rw (
        size,
        le→ltb fragment_size_mask (length payload) (omega arith),
        lt→ltb (length payload) last_fragment_flag (omega arith),
        append_assoc sent (put_uint32 (length payload + 2 ^ 31)) payload,
      ),
      read_record-frame [] payload rest ending (tt, h) (omega arith),
    )
