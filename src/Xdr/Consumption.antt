-- ===== src/Xdr/Consumption.antt =====
-- What a decoder takes off its stream.
use go_nfs_client.Prelude.{
  ℕ, zero, suc, ◌+◌, ◌≤◌, ◌≡◌, none, arith, length, split_at, split_at-length, Option-cases, [],
  ◌∷◌, inl, inr, Bool-cases, ◌==◌,
}
use go_nfs_client.Xdr.Encoder.{pad4}
use go_nfs_client.Xdr.Decoder
use go_nfs_client.Xdr.Decoder.{Decoder, Get, pure, times, get_err, ◌>>=◌}

-- A decoder never adds to its stream.
abbrev pub NeverGrows : {A : Type 0} → Get A → Type 0
NeverGrows get = (d : Decoder) → length (get d).1.r.input ≤ length d.r.input

module _ {A B : Type 0} where
  pub >>=-NeverGrows :
      (m : Get A) (f : A → Get B)
      → NeverGrows m
      → ((a : A) → NeverGrows (f a))
      → NeverGrows (m >>= f)
  unfolding ◌>>=◌
  >>=-NeverGrows m f h k d = omega (arith, h d, k (m d).0 (m d).1)

pub pure-NeverGrows : {A : Type 0} (a : A) → NeverGrows (pure a)
unfolding pure
pure-NeverGrows a d = omega arith

pub get_err-NeverGrows : NeverGrows get_err
unfolding get_err
get_err-NeverGrows d = omega arith

unless_failed-NeverGrows :
    {A : Type 0} (a : A) (k : Get A) → NeverGrows k → NeverGrows (Decoder.unless_failed a k)
unless_failed-NeverGrows a k h d = ground (arith, h d)

read-NeverGrows : (n : ℕ) → NeverGrows (Decoder.read n)
unfolding Decoder.read
read-NeverGrows n d = elim (Option-cases (split_at n d.r.input)) [
  | inl e ↦ ground arith
  | inr ((p, rest), e) ↦ ground (arith, split_at-length n d.r.input p rest e)
]

pub uint32-NeverGrows : NeverGrows Decoder.uint32
unfolding Decoder.uint32
uint32-NeverGrows =
    >>=-NeverGrows _ _ (read-NeverGrows 4) λ b. unless_failed-NeverGrows 0 _ (pure-NeverGrows _)

pub uint64-NeverGrows : NeverGrows Decoder.uint64
unfolding Decoder.uint64
uint64-NeverGrows =
    >>=-NeverGrows _ _ (read-NeverGrows 8) λ b. unless_failed-NeverGrows 0 _ (pure-NeverGrows _)

discard-NeverGrows : (n : ℕ) → NeverGrows (Decoder.discard n)
unfolding Decoder.discard
discard-NeverGrows n = elim (Bool-cases (n == 0)) [
  | inl e ↦ rw e (pure-NeverGrows tt)
  | inr e ↦ rw e (
      unless_failed-NeverGrows tt _
        (>>=-NeverGrows _ _ (read-NeverGrows n) λ _. pure-NeverGrows tt))
]

padded-NeverGrows : (n : ℕ) → NeverGrows (Decoder.padded n)
unfolding Decoder.padded
padded-NeverGrows n = >>=-NeverGrows _ _ (read-NeverGrows n) λ out. unless_failed-NeverGrows [] _ (
    >>=-NeverGrows _ _ (discard-NeverGrows (pad4 n))
      λ _. unless_failed-NeverGrows [] _ (pure-NeverGrows out))

pub opaque-NeverGrows : NeverGrows Decoder.opaque
unfolding Decoder.opaque
opaque-NeverGrows =
    >>=-NeverGrows _ _ uint32-NeverGrows
      λ n. unless_failed-NeverGrows [] _ (λ d. ground (arith, padded-NeverGrows n d))

pub string-NeverGrows : NeverGrows Decoder.string
unfolding Decoder.string
string-NeverGrows = opaque-NeverGrows

pub times-NeverGrows :
    {A : Type 0} (n : ℕ) (get : Get A) → NeverGrows get → NeverGrows (times n get)
unfolding times
times-NeverGrows zero get h = pure-NeverGrows []
times-NeverGrows (suc n) get h =
    >>=-NeverGrows _ _ h
      λ x. >>=-NeverGrows _ _ (times-NeverGrows n get h) λ xs. pure-NeverGrows (x ∷ xs)

-- A uint32 that is read without error takes four bytes.
uint32-takes :
    (d : Decoder)
    → (Decoder.uint32 d).1.err ≡ none
    → 4 + length (Decoder.uint32 d).1.r.input ≤ length d.r.input
unfolding Decoder.uint32 Decoder.read ◌>>=◌ pure
uint32-takes d h = elim (Option-cases (split_at 4 d.r.input)) [
  | inl e ↦ ground arith
  | inr ((p, rest), e) ↦ ground (arith, split_at-length 4 d.r.input p rest e)
]

pub bool-takes :
    (d : Decoder)
    → (Decoder.bool d).1.err ≡ none
    → 4 + length (Decoder.bool d).1.r.input ≤ length d.r.input
unfolding Decoder.bool ◌>>=◌ pure
bool-takes d h = uint32-takes d h
