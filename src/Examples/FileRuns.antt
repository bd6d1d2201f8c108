-- ===== src/Examples/FileRuns.antt =====
-- A file of three bytes on a server that answers with one byte at a time.
use go_nfs_client.Prelude.{
  ℕ, ◌+◌, ◌≤◌, ◌<◌, ◌≡◌, refl, ◌⊎◌, inl, inr, false, Bool-cases, some, [], ◌∷◌, if◌then◌else◌, ltb,
  leb, arith,
}
use go_nfs_client.Prelude.Int.{pos}
use go_nfs_client.Xdr.Io.{Bytes}
use go_nfs_client.Client.File.{ReadProc, data_, eof, read_at}
use go_nfs_client.Client.File.ReadAt.{slice, Serves, read_at_lem}

abbrev contents : Bytes
contents = 1 ∷ 2 ∷ 3 ∷ []

abbrev step_at : ℕ → ℕ
step_at off = if ltb off 3 then 1 else 0

abbrev one_byte : ReadProc ℕ
one_byte off count w = (data_ (slice off (step_at off) contents) (leb 3 (off + step_at off)), w + 1)

one_byte-Serves : Serves contents one_byte
one_byte-Serves = record {
  law = λ off count w p. (step_at off, ground (arith, p), ground arith, moves off, refl);
}
  where
    moves : (off : ℕ) → (0 < step_at off) ⊎ (3 ≤ off)
    moves off = elim (Bool-cases (ltb off 3)) [
      | inl e ↦ inl (rw e (omega arith))
      | inr e ↦ inr (ground arith)
    ]

read_at_lem_example : (read_at one_byte false 5 (pos 1) 0).0 ≡ (2 ∷ 3 ∷ [], some eof)
read_at_lem_example =
    read_at_lem contents one_byte 1 5 0 one_byte-Serves (omega arith) (omega arith)
