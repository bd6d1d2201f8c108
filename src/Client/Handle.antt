-- ===== src/Client/Handle.antt =====
-- client/file.go: open files. ReadAt's loop stands in Client.File.
pub mod Splices
pub mod Writes
use go_nfs_client.Prelude.{
  ℕ, zero, suc, ◌+◌, ◌-◌, ◌/◌, ◌%◌, ◌^◌, Bool, true, false, not, ◌&&◌, ◌||◌, Option, some, none,
  List, [], ◌∷◌, length, take, drop, if◌then◌else◌, ◌==◌,
}
use go_nfs_client.Prelude.Int.{ℤ, pos, negsuc, to_pattern, of_pattern}
use go_nfs_client.Xdr.Io.{Bytes}
use go_nfs_client.Nfs4.Types.{Stateid}
use go_nfs_client.Nfs4.Caller.{CallError, other_error}
use go_nfs_client.Nfs4.Attr.Bitmap.{standard_mask}
use go_nfs_client.Nfs4.Attr.Attributes.{Attributes}
use go_nfs_client.Nfs4.Attr.Attributes
use go_nfs_client.Nfs4.Attr.Mode.{FileInfo}
use go_nfs_client.Nfs4.Attr.Settable.{SettableAttrs, encode_fattr}
use go_nfs_client.Client.Errors.{
  Sentinel, invalid, closed, FileError, path_sentinel, path_error, eof, short_write, out_of_fuel,
}
use go_nfs_client.Client.Protocol.{Outcome, done, failed, RwProtocol}
use go_nfs_client.Client.Paths.{path_split}

-- File, without the name that its errors carry. `base` is path.Base of that name.
pub record File : Type 0 where
  pub base : Bytes
  pub fh : Bytes
  pub stateid : Stateid
  pub flag : ℕ
  pub share : ℕ
  pub offset : ℤ
  pub is_closed : Bool

-- The flags of package os, on Linux; a flag by its bit's value.
abbrev pub o_wronly : ℕ
o_wronly = 1

abbrev pub o_rdwr : ℕ
o_rdwr = 2

abbrev pub o_append : ℕ
o_append = 1024

-- `flag&bit != 0`
abbrev pub has_flag : ℕ → ℕ → Bool
has_flag flag bit = flag / bit % 2 == 1

abbrev pub file_sync4 : ℕ
file_sync4 = 2

-- What attr.Decode's error is, by a number.
abbrev pub undecodable : ℕ
undecodable = 8

-- `a + b` on int64.
unfoldable pub add64 : ℤ → ℤ → ℤ
add64 a b = of_pattern (2 ^ 63) (2 ^ 64) ((to_pattern (2 ^ 64) a + to_pattern (2 ^ 64) b) % 2 ^ 64)

unfoldable pub is_negative : ℤ → Bool
is_negative (pos n) = false
is_negative (negsuc n) = true

-- A method with an error: what it returns, and the file and the world after it.
abbrev pub Method : Type 0 → Type 0 → Type 0
Method W A = File → W → (A × Option FileError) × File × W

module _ {W : Type 0} (proto : RwProtocol W) where
  -- GETATTR and attr.Decode.
  unfoldable pub attributes : Bytes → W → Outcome Attributes × W
  attributes fh w =
      let (r, w') = proto.get_attr fh standard_mask w in
      elim r [
        | failed e ↦ (failed e, w')
        | done (mask, vals) ↦ elim (Attributes.decode mask vals) [
          | Attributes.ok a ↦ (done a, w')
          | Attributes.err e ↦ (failed (other_error undecodable), w')
        ]
      ]

  -- `int64(attrs.Size)`
  unfoldable pub size : Bytes → W → Outcome ℤ × W
  size fh w =
      let (r, w') = attributes fh w in
      elim r [
        | failed e ↦ (failed e, w')
        | done a ↦ (done (of_pattern (2 ^ 63) (2 ^ 64) a.size), w')
      ]

  unfoldable pub stat : Method W (Option FileInfo)
  stat f w =
      let (r, w') = attributes f.fh w in
      if f.is_closed then ((none, some (path_sentinel closed)), f, w) else elim r [
        | failed e ↦ ((none, some (path_error e)), f, w')
        | done a ↦ ((some (record { name = f.base; attrs = a }), none), f, w')
      ]

  -- What Read puts in front of `p`, where `n` is len(p).
  unfoldable pub read : ℕ → Method W Bytes
  read n f w =
      let (r, w') = proto.read f.fh (to_pattern (2 ^ 64) f.offset) (n % 2 ^ 32) w in
      if f.is_closed
      then (([], some (path_sentinel closed)), f, w)
      else if n == 0
      then (([], none), f, w)
      else elim r [
        | failed e ↦ (([], some (path_error e)), f, w')
        | done (contents, at_end) ↦
            let got = take n contents in
            (
              (got, if length got == 0 then some eof else none),
              record f { offset = add64 f.offset (pos (length got)) },
              w',
            )
      ]

  -- `rest` is `p[total:]`; the loop goes on while there is some. What the server says to have written
  -- is added up as it is.
  unfoldable pub write_loop : Bytes → Stateid → ℕ → ℕ → ℕ → Bytes → W → (ℕ × Option FileError) × W
  write_loop fh sid off zero total rest w = ((total, some out_of_fuel), w)
  write_loop fh sid off (suc fuel) total [] w = ((total, none), w)
  write_loop fh sid off (suc fuel) total (b ∷ rest) w =
      let (r, w') = proto.write fh sid ((off + total) % 2 ^ 64) (b ∷ rest) file_sync4 w in
      elim r [
        | failed e ↦ ((total, some (path_error e)), w')
        | done (n, committed) ↦ elim (n == 0) [
          | true ↦ ((total, some short_write), w')
          | false ↦ write_loop fh sid off fuel (total + n) (drop n (b ∷ rest)) w'
        ]
      ]

  -- Each round takes one byte at least, so `length p + 1` rounds are enough.
  unfoldable pub write_bytes : File → Bytes → ℤ → W → (ℕ × Option FileError) × W
  write_bytes f p off w = write_loop f.fh f.stateid (to_pattern (2 ^ 64) off) (length p + 1) 0 p w

  unfoldable pub write_at : Bytes → ℤ → Method W ℕ
  write_at p off f w =
      let (r, w') = write_bytes f p off w in
      if f.is_closed
      then ((0, some (path_sentinel closed)), f, w)
      else if is_negative off
      then ((0, some (path_sentinel invalid)), f, w)
      else (r, f, w')

  -- Where Write writes: at the offset, or at the end of a file opened with O_APPEND.
  unfoldable pub write_offset : File → W → Outcome ℤ × W
  write_offset f w = if has_flag f.flag o_append then size f.fh w else (done f.offset, w)

  unfoldable pub write : Bytes → Method W ℕ
  write p f w =
      if f.is_closed
      then ((0, some (path_sentinel closed)), f, w)
      else (let (r, w₁) = write_offset f w in
          elim r [
            | failed e ↦ ((0, some (path_error e)), f, w₁)
            | done off ↦
                let ((n, e), w₂) = write_bytes f p off w₁ in
                ((n, e), record f { offset = add64 off (pos n) }, w₂)
          ])

  -- io.SeekStart, io.SeekCurrent and io.SeekEnd are 0, 1 and 2.
  unfoldable pub seek_base : ℕ → File → W → Outcome ℤ × W
  seek_base whence f w =
      if whence == 0
      then (done (pos 0), w)
      else if whence == 1
      then (done f.offset, w)
      else size f.fh w

  unfoldable pub seek : ℤ → ℕ → Method W ℤ
  seek offset whence f w =
      if f.is_closed
      then ((pos 0, some (path_sentinel closed)), f, w)
      else if not ((whence == 0) || ((whence == 1) || (whence == 2)))
      then ((pos 0, some (path_sentinel invalid)), f, w)
      else (let (r, w') = seek_base whence f w in
          elim r [
            | failed e ↦ ((pos 0, some (path_error e)), f, w')
            | done base ↦
                let abs = add64 base offset in
                elim (is_negative abs) [
                  | true ↦ ((pos 0, some (path_sentinel invalid)), f, w')
                  | false ↦ ((abs, none), record f { offset = abs }, w')
                ]
          ])

  abbrev pub only_size : ℕ → SettableAttrs
  only_size n = record { mode = none; size = some n; time_access = none; time_modify = none }

  -- `return pathError(…)`, where the call failed.
  abbrev pub reported : Outcome (Unit {0}) → Option FileError
  reported (done _) = none
  reported (failed e) = some (path_error e)

  unfoldable pub truncate : ℤ → Method W (Unit {0})
  truncate (negsuc n) f w =
      ((tt, some (path_sentinel (if f.is_closed then closed else invalid))), f, w)
  truncate (pos n) f w =
      let (mask, vals) = encode_fattr (only_size n) in
      let (r, w') = proto.set_attr f.fh f.stateid mask vals w in
      if f.is_closed then ((tt, some (path_sentinel closed)), f, w) else ((tt, reported r), f, w')

  unfoldable pub sync : Method W (Unit {0})
  sync f w =
      let (r, w') = proto.commit f.fh 0 0 w in
      if f.is_closed then ((tt, some (path_sentinel closed)), f, w) else ((tt, reported r), f, w')

  unfoldable pub close : Method W (Unit {0})
  close f w =
      let (r, w') = proto.close_file f.fh f.stateid w in
      if f.is_closed
      then ((tt, some (path_sentinel closed)), f, w)
      else ((tt, reported r), record f { is_closed = true }, w')
