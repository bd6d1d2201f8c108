-- ===== src/Nfs4/Replies/Termination.antt =====
-- READDIR: the loop over the entries ends on every reply.
use go_nfs_client.Prelude.{
  ℕ, zero, suc, ◌<◌, ◌≢◌, none, some, List, ◌++◌, ◌∷◌, [], arith, length, Option, Option-cases,
  Bool-cases, inl, inr,
}
use go_nfs_client.Xdr.Decoder
use go_nfs_client.Xdr.Decoder.{Decoder, get_err, pure, ◌>>=◌}
use go_nfs_client.Xdr.Consumption.{
  NeverGrows, >>=-NeverGrows, pure-NeverGrows, get_err-NeverGrows, uint32-NeverGrows,
  uint64-NeverGrows, opaque-NeverGrows, string-NeverGrows, times-NeverGrows, bool-takes,
}
use go_nfs_client.Nfs4.Types.{decode_bitmap}
use go_nfs_client.Nfs4.Results.{DirEntry, out_of_fuel, decode_entry, read_entries, all_entries}

bitmap-NeverGrows : NeverGrows decode_bitmap
unfolding decode_bitmap
bitmap-NeverGrows =
    >>=-NeverGrows _ _ uint32-NeverGrows λ n. >>=-NeverGrows _ _ get_err-NeverGrows (words n)
  where
    words :
        (n : ℕ) (e : Option Decoder.Error)
        → NeverGrows (elim e [ some x ↦ pure [] | none ↦ Decoder.times n Decoder.uint32 ])
    words n (some x) = pure-NeverGrows []
    words n none = times-NeverGrows n _ uint32-NeverGrows

entry-NeverGrows : NeverGrows decode_entry
unfolding decode_entry
entry-NeverGrows = >>=-NeverGrows _ _ uint64-NeverGrows λ c.
    >>=-NeverGrows _ _ string-NeverGrows λ n.
      >>=-NeverGrows _ _ bitmap-NeverGrows
        λ m. >>=-NeverGrows _ _ opaque-NeverGrows λ v. pure-NeverGrows _

read_entries-ne-out_of_fuel :
    (fuel : ℕ) (es : List DirEntry) (d : Decoder)
    → length d.r.input < fuel
    → (read_entries fuel es d).0 ≢ out_of_fuel
unfolding read_entries ◌>>=◌ get_err pure
read_entries-ne-out_of_fuel zero es d lt = absurd (omega arith)
read_entries-ne-out_of_fuel (suc fuel) es d lt = elim (Option-cases (Decoder.bool d).1.err) [
  | inr (x, e) ↦ ground arith
  | inl e ↦ elim (Bool-cases (Decoder.bool d).0) [
    | inr b ↦ ground arith
    | inl b ↦ elim (Option-cases (decode_entry (Decoder.bool d).1).1.err) [
      | inr (x, e') ↦ ground arith
      | inl e' ↦
          let ih =
            read_entries-ne-out_of_fuel fuel (es ++ ((decode_entry (Decoder.bool d).1).0 ∷ []))
              (decode_entry (Decoder.bool d).1).1
              (omega (arith, bool-takes d e, entry-NeverGrows (Decoder.bool d).1)) in
          ground (arith, ih)
    ]
  ]
]

-- The loop of READDIR's result decoder ends on every reply, whatever the server sent.
pub all_entries-ne-out_of_fuel :
    (es : List DirEntry) (d : Decoder) → (all_entries es d).0 ≢ out_of_fuel
unfolding all_entries
all_entries-ne-out_of_fuel es d =
    read_entries-ne-out_of_fuel (suc (length d.r.input)) es d (omega arith)
