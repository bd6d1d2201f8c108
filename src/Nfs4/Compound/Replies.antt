-- ===== src/Nfs4/Compound/Replies.antt =====
-- A COMPOUND4res, as the client reads it.
use go_nfs_client.Prelude.{
  ℕ, Bool, ◌+◌, ◌≤◌, ◌≡◌, ◌⊎◌, inl, inr, List, [], ◌∷◌, ◌++◌, length, none, arith, ltb, ◌==◌, not,
  ◌&&◌, le→ltb,
}
use go_nfs_client.Xdr.Io.{Bytes, IoError}
use go_nfs_client.Xdr.Encoder
use go_nfs_client.Xdr.Encoder.{Put, each, ◌>>◌, skip}
use go_nfs_client.Xdr.Codec.{
  Codec, Codec-then, Codec-assoc, Codec-pure, Codec-get_err, Codec-end, Codec-decodes, reader,
  written,
}
use go_nfs_client.Xdr.RoundTrip.{uint32-Codec, string-Codec}
use go_nfs_client.Nfs4.Types.{U32, Small, Reads-pure}
use go_nfs_client.Nfs4.Compound.{Res, ok, decode_resops, decode_compound}

-- One nfs_resop4: its opnum, and what the server writes for its body.
pub record Resop : Type 0 where
  pub op : ℕ
  pub body : Put

unfoldable pub put_resop : Resop → Put
put_resop r = do Encoder.uint32 r.op; r.body

-- COMPOUND4res as RFC 7530 lays it out.
unfoldable pub put_compound_res : ℕ → Bytes → List Resop → Put
put_compound_res status tag resops = do
  Encoder.uint32 status
  Encoder.string tag
  Encoder.uint32 (length resops)
  each put_resop resops

-- The server's answers fit the result decoders: each opnum is the one that its decoder advertises,
-- if it does, and each decoder reads its body back and takes the state along. The server may stop
-- early, and then leaves the rest of the decoders without an answer.
pub data Answers {S : Type 0} : List (Res S) → List Resop → S → S → Type 0 where
  stop : {results : List (Res S)} {s : S} → Answers results [] s s
  next :
      {r : Res S} {results : List (Res S)} {a : Resop} {resops : List Resop} {s s' s'' : S}
      → (r.op ≡ 0) ⊎ (r.op ≡ a.op)
      → U32 a.op
      → Codec a.body (r.decode_res s) s'
      → Answers results resops s' s''
      → Answers (r ∷ results) (a ∷ resops) s s''

no_mismatch : (a b : ℕ) → (a ≡ 0) ⊎ (a ≡ b) → (not (a == 0) && not (a == b)) ≡ Bool.false
no_mismatch a b (inl h) = ground arith
no_mismatch a b (inr h) = ground arith

module _ {S : Type 0} where
  pub Answers-length-le :
      {results : List (Res S)} {resops : List Resop} {s s' : S}
      → Answers results resops s s'
      → length resops ≤ length results
  Answers-length-le stop = omega arith
  Answers-length-le (next _ _ _ h) = omega (arith, Answers-length-le h)

  resops-Codec :
      (i : ℕ) (results : List (Res S)) (resops : List Resop) (s s' : S)
      → Answers results resops s s'
      → Codec (each put_resop resops) (decode_resops i (length resops) results s) (none, s')
  unfolding each put_resop decode_resops
  resops-Codec i results [] s s' stop = Codec-pure (none, s)
  resops-Codec i (r ∷ results) (a ∷ resops) s s'' (next {s' = t} e u c h) =
      Codec-assoc (Encoder.uint32 a.op) a.body (each put_resop resops) (
        Codec-then _ (uint32-Codec a.op u) (
          Codec-get_err _ (
            rw (no_mismatch r.op a.op e)
              (Codec-then _ c (Codec-get_err _ (resops-Codec (i + 1) results resops t s'' h))))))
  resops-Codec i [] (a ∷ resops) s s'' h = elim h [ ]

  -- The reply of a server that follows RFC 7530 decodes without error, to its status, its tag and the
  -- number of its results, and each result decoder that has an answer has read it, in order, where
  -- the answers fit the decoders; what follows the reply is left.
  pub decode_compound-put_compound_res :
      (status : ℕ) (tag : Bytes) (results : List (Res S)) (resops : List Resop) (s s' : S)
      (ending : IoError) (rest : Bytes)
      → U32 status
      → Small tag
      → U32 (length resops)
      → Answers results resops s s'
      → decode_compound results s
          (reader (written (put_compound_res status tag resops) ++ rest) ending)
        ≡ (
          (ok (record { status = status; tag = tag; num_results = length resops }), s'),
          reader rest ending,
        )
  unfolding decode_compound put_compound_res
  decode_compound-put_compound_res status tag results resops s s' ending rest hs ht hn h =
      let fits : ltb (length results) (length resops) ≡ Bool.false =
        le→ltb _ _ (Answers-length-le h) in
      Codec-decodes _ _ _
        (Codec-then _ (uint32-Codec status hs) (
          Codec-then _ (string-Codec tag ht) (
            Codec-then _ (uint32-Codec (length resops) hn) (
              Codec-get_err _
                (rw fits (Codec-end _ (resops-Codec 0 results resops s s' h) (Reads-pure _)))))))
        ending rest
