-- ===== src/Nfs4/Compound.antt =====
-- nfs4/compound.go: COMPOUND requests and their replies.
pub mod Requests
pub mod Replies
use go_nfs_client.Prelude.{
  ℕ, zero, suc, ◌+◌, ◌%◌, ◌^◌, Bool, not, ◌&&◌, List, [], ◌++◌, ◌∷◌, length, Option, some, none,
  ltb, ◌==◌, if◌then◌else◌,
}
use go_nfs_client.Xdr.Io.{Bytes}
use go_nfs_client.Xdr.Encoder
use go_nfs_client.Xdr.Encoder.{Put, each, ◌>>◌}
use go_nfs_client.Xdr.Decoder
use go_nfs_client.Xdr.Decoder.{Get, pure, get_err, ◌>>=◌}
use go_nfs_client.Nfs4.Args.{Arg, encode_arg}

pub record Compound : Type 0 where
  pub tag : Bytes
  pub minor_version : ℕ
  pub ops : List Arg

unfoldable pub new_compound : Bytes → Compound
new_compound tag = record { tag = tag; minor_version = 0; ops = [] }

unfoldable pub add : Compound → Arg → Compound
add c op = record c { ops = c.ops ++ (op ∷ []) }

unfoldable pub encode_compound : Compound → Put
encode_compound c = do
  Encoder.string c.tag
  Encoder.uint32 c.minor_version
  Encoder.uint32 (length c.ops % 2 ^ 32)
  each encode_arg c.ops

pub record CompoundResult : Type 0 where
  pub status : ℕ
  pub tag : Bytes
  pub num_results : ℕ

-- The result decoders that the caller passes work on state of the caller's, `S`. `op` is what
-- expectedOp answers: 0 for a decoder that advertises no opnum.
pub record Res (S : Type 0) : Type 0 where
  pub op : ℕ
  pub decode_res : S → Get S

pub data Error : Type 0 where
  header : Decoder.Error → Error
  too_many_resops : ℕ → ℕ → Error
  opnum : ℕ → Decoder.Error → Error
  opnum_mismatch : ℕ → ℕ → ℕ → Error
  body : ℕ → Decoder.Error → Error

pub data Outcome : Type 0 where
  ok : CompoundResult → Outcome
  err : Error → Outcome

module _ {S : Type 0} where
  -- Rounds `i` to `i + n - 1` of the loop, on the results from `i` on. The loop never runs past the
  -- end of `results`.
  unfoldable pub decode_resops : ℕ → ℕ → List (Res S) → S → Get (Option Error × S)
  decode_resops i zero results s = pure (none, s)
  decode_resops i (suc n) [] s = pure (none, s)
  decode_resops i (suc n) (r ∷ results) s = do
    op ← Decoder.uint32
    e ← get_err
    elim e [
      | some x ↦ pure (some (opnum i x), s)
      | none ↦
          if not (r.op == 0) && not (r.op == op)
          then pure (some (opnum_mismatch i op r.op), s)
          else (do
            s' ← r.decode_res s
            e' ← get_err
            elim e' [
              | some x ↦ pure (some (body i x), s')
              | none ↦ decode_resops (i + 1) n results s'
            ])
    ]

  -- `int(count)` is exact on a 64-bit platform.
  unfoldable pub decode_compound : List (Res S) → S → Get (Outcome × S)
  decode_compound results s = do
    status ← Decoder.uint32
    tag ← Decoder.string
    count ← Decoder.uint32
    e ← get_err
    elim e [
      | some x ↦ pure (err (header x), s)
      | none ↦
          if ltb (length results) count
          then pure (err (too_many_resops count (length results)), s)
          else (do
            (o, s') ← decode_resops 0 count results s
            pure (
              elim o [
                | some x ↦ err x
                | none ↦ ok (record { status = status; tag = tag; num_results = count })
              ],
              s',
            ))
    ]
