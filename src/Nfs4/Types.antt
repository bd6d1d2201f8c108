-- ===== src/Nfs4/Types.antt =====
-- nfs4/types.go and the numbers of nfs4/consts.go.
use go_nfs_client.Prelude.{
  ℕ, ◌%◌, ◌^◌, ◌<◌, ◌≤◌, ◌≡◌, refl, Bool, some, none, [], ◌∷◌, List, length, All, arith, true,
  false, if◌then◌else◌,
}
use go_nfs_client.Prelude.Int.{pos}
use go_nfs_client.Xdr.Io.{Bytes}
use go_nfs_client.Xdr.Encoder
use go_nfs_client.Xdr.Encoder.{Put, each, ◌>>◌}
use go_nfs_client.Xdr.Decoder
use go_nfs_client.Xdr.Decoder.{Get, pure, times, get_err, default_max_len, ◌>>=◌}
use go_nfs_client.Xdr.Codec.{Codec, Reads, Codec-then, Codec-map, Codec-get_err}
use go_nfs_client.Xdr.RoundTrip.{uint32-Codec, fixed_opaque-Codec}
use go_nfs_client.Rpc.RoundTrip.{uint32s-Codec}

abbrev pub verifier_size : ℕ
verifier_size = 8

abbrev pub session_id_len : ℕ
session_id_len = 16

abbrev pub nfs4_ok : ℕ
nfs4_ok = 0

abbrev pub nfs4err_delay : ℕ
nfs4err_delay = 10008

abbrev pub nfs4err_grace : ℕ
nfs4err_grace = 10013

abbrev pub nfs4err_clid_inuse : ℕ
nfs4err_clid_inuse = 10017

abbrev pub Bitmap : Type 0
Bitmap = List ℕ

unfoldable pub encode_bitmap : Bitmap → Put
encode_bitmap b = do Encoder.uint32 (length b % 2 ^ 32); each Encoder.uint32 b

unfoldable pub decode_bitmap : Get Bitmap
decode_bitmap = do
  n ← Decoder.uint32
  e ← get_err
  elim e [ some x ↦ pure [] | none ↦ times n Decoder.uint32 ]

-- Go's `copy(dst, src)`.
abbrev pub copy : Bytes → Bytes → Bytes
copy [] src = []
copy (x ∷ dst) [] = x ∷ dst
copy (x ∷ dst) (y ∷ src) = y ∷ copy dst src

-- `other` is an array of 12 bytes.
pub record Stateid : Type 0 where
  pub seqid : ℕ
  pub other : Bytes

abbrev pub new_stateid : Stateid
new_stateid = record { seqid = 0; other = 0 ∷ 0 ∷ 0 ∷ 0 ∷ 0 ∷ 0 ∷ 0 ∷ 0 ∷ 0 ∷ 0 ∷ 0 ∷ 0 ∷ [] }

unfoldable pub encode_stateid : Stateid → Put
encode_stateid s = do Encoder.uint32 s.seqid; Encoder.fixed_opaque s.other

unfoldable pub decode_stateid : Get Stateid
decode_stateid = do
  seqid ← Decoder.uint32
  other ← Decoder.fixed_opaque (pos 12)
  pure (record { seqid = seqid; other = copy new_stateid.other other })

-- The values of Go's types: uint32, uint64, a slice within the decoder's limit, an array.
abbrev pub U32 : ℕ → Type 0
U32 v = v < 2 ^ 32

abbrev pub U64 : ℕ → Type 0
U64 v = v < 2 ^ 64

abbrev pub Small : Bytes → Type 0
Small p = length p ≤ default_max_len

abbrev pub Array : ℕ → Bytes → Type 0
Array n p = length p ≡ n

pub record FitsBitmap (b : Bitmap) : Type 0 where
  pub count_fits : U32 (length b)
  pub words_fit : All (λ w. w < 2 ^ 32) b

pub record FitsStateid (s : Stateid) : Type 0 where
  pub seqid_fits : U32 s.seqid
  pub other_fits : Array 12 s.other

pub copy-Array : (dst src : Bytes) → length src ≡ length dst → copy dst src ≡ src
copy-Array [] [] h = refl
copy-Array [] (y ∷ src) h = absurd (omega arith)
copy-Array (x ∷ dst) [] h = absurd (omega arith)
copy-Array (x ∷ dst) (y ∷ src) h = rw (copy-Array dst src (omega arith))

pub bitmap-Codec : (b : Bitmap) → FitsBitmap b → Codec (encode_bitmap b) decode_bitmap b
unfolding encode_bitmap decode_bitmap
bitmap-Codec b h =
    let e : length b % 2 ^ 32 ≡ length b = omega (arith, h.count_fits) in
    rw e (
      Codec-then _ (uint32-Codec (length b) h.count_fits)
        (Codec-get_err _ (uint32s-Codec b h.words_fit)))

pub Array-Codec :
    (n : ℕ) (p : Bytes)
    → Array n p
    → Codec (Encoder.fixed_opaque p) (Decoder.fixed_opaque (pos n)) p
Array-Codec n p h = rw h at (fixed_opaque-Codec p)

copied-Codec :
    (s : Stateid)
    → FitsStateid s
    → Codec (encode_stateid s) decode_stateid (record s { other = copy new_stateid.other s.other })
unfolding encode_stateid decode_stateid
copied-Codec s h = Codec-then {B = Stateid} _ (uint32-Codec s.seqid h.seqid_fits) (
    Codec-map (λ o. record { seqid = s.seqid; other = copy new_stateid.other o })
      (Array-Codec 12 s.other h.other_fits))

pub stateid-Codec : (s : Stateid) → FitsStateid s → Codec (encode_stateid s) decode_stateid s
stateid-Codec s h = rw (copy-Array new_stateid.other s.other h.other_fits) at (copied-Codec s h)

pub if-Codec :
    {A : Type 0} (b : Bool) {p q : Put} {m n : Get A} {x y : A}
    → (b ≡ true → Codec p m x)
    → (b ≡ false → Codec q n y)
    → Codec (if b then p else q) (if b then m else n) (if b then x else y)
if-Codec true h k = h refl
if-Codec false h k = k refl

pub Reads-pure : {A : Type 0} (a : A) → Reads (pure a) [] a
unfolding pure
Reads-pure a ending rest = refl
