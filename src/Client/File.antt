-- ===== src/Client/File.antt =====
-- client/file.go: reading a file at an offset.
pub mod ReadAt
use go_nfs_client.Prelude.{
  ℕ, zero, suc, ◌+◌, ◌-◌, ◌%◌, ◌^◌, Bool, true, false, ◌||◌, Option, some, none, List, [], ◌++◌,
  length, take, if◌then◌else◌, ◌==◌,
}
use go_nfs_client.Prelude.Int.{ℤ, pos, negsuc}
use go_nfs_client.Xdr.Io.{Bytes}

-- What the protocol's Read answers: data and the end mark, or an error by its number.
pub data ReadAnswer : Type 0 where
  data_ : Bytes → Bool → ReadAnswer
  failed : ℕ → ReadAnswer

-- `out_of_fuel` has no counterpart in the program.
pub data Error : Type 0 where
  closed eof invalid out_of_fuel : Error
  path_error : ℕ → Error

-- `f.fsys.proto.Read` on the file, at an offset and for a count.
abbrev pub ReadProc : Type 0 → Type 0
ReadProc W = ℕ → ℕ → W → ReadAnswer × W

-- `acc` is `p[:total]`, and `remaining` is `len(p) - total`.
unfoldable pub read_at_loop :
    {W : Type 0} → ReadProc W → ℕ → ℕ → Bytes → ℕ → W → (Bytes × Option Error) × W
read_at_loop read off zero acc remaining w = ((acc, some out_of_fuel), w)
read_at_loop read off (suc fuel) acc remaining w =
    let (answer, w') = read ((off + length acc) % 2 ^ 64) (remaining % 2 ^ 32) w in
    if remaining == 0 then ((acc, none), w) else elim answer [
      | failed n ↦ ((acc, some (path_error n)), w')
      | data_ d at_end ↦
          let got = take remaining d in
          let rest = read_at_loop read off fuel (acc ++ got) (remaining - length got) w' in
          if at_end || (length d == 0) then ((acc ++ got, some eof), w') else rest
    ]

-- `n` is len(p). Each round but the last reads one byte at least, so `n + 1` rounds are enough.
unfoldable pub read_at : {W : Type 0} → ReadProc W → Bool → ℕ → ℤ → W → (Bytes × Option Error) × W
read_at read is_closed n (negsuc k) w = (([], some (if is_closed then closed else invalid)), w)
read_at read is_closed n (pos off) w =
    if is_closed then (([], some closed), w) else read_at_loop read off (n + 1) [] n w
