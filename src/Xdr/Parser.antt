-- ===== src/Xdr/Parser.antt =====
-- Decoders on any input, whole or cut off: an error stays, and a result does not depend on what
-- follows the bytes that were read.
use go_nfs_client.Prelude.{
  ℕ, zero, suc, ◌≡◌, refl, ◌⊎◌, inl, inr, Bool, true, false, Option, none, some, [], ◌∷◌, ◌++◌,
  arith, if◌then◌else◌, length, length-append, split_at, split_at-append_more, Option-cases, sym,
  ap, ◌∙◌, append-nil, Bool-cases, ltb, ◌==◌,
}
use go_nfs_client.Prelude.Int.{pos}
use go_nfs_client.Xdr.Io.{Bytes, IoError, short_error}
use go_nfs_client.Xdr.Encoder.{Put, pad4}
use go_nfs_client.Xdr.Decoder
use go_nfs_client.Xdr.Decoder.{Decoder, Error, Get, pure, times, ◌>>=◌}
use go_nfs_client.Xdr.Codec.{Codec, reader, written, Codec-decodes}

abbrev pub HasFailed : Decoder → Type 0
HasFailed d = (e : Error) × (d.err ≡ some e)

-- What a decoder may do on an input: fail, or answer the same on every longer input.
abbrev Settles : {A : Type 0} → Get A → Bytes → IoError → Bytes → Type 0
Settles {A} get input ending more =
    HasFailed (get (reader input ending)).1
    ⊎ ((a : A) × (rest : Bytes) × (get (reader input ending) ≡ (a, reader rest ending))
        × (get (reader (input ++ more) ending) ≡ (a, reader (rest ++ more) ending)))

pub record IsParser {A : Type 0} (get : Get A) : Type 0 where
  pub sticky : (d : Decoder) (e : Error) → d.err ≡ some e → (get d).1.err ≡ some e
  pub settles : (input : Bytes) (ending : IoError) (more : Bytes) → Settles get input ending more

pub pure-IsParser : {A : Type 0} (a : A) → IsParser (pure a)
unfolding pure
pure-IsParser a = record {
  sticky = λ d e h. h;
  settles = λ input ending more. inr (a, input, refl, refl);
}

pub get_err-IsParser : IsParser Decoder.get_err
unfolding Decoder.get_err
get_err-IsParser = record {
  sticky = λ d e h. h;
  settles = λ input ending more. inr (none, input, refl, refl);
}

module _ {A B : Type 0} (m : Get A) (f : A → Get B) where
  >>=-eq : (d d' : Decoder) (a : A) → m d ≡ (a, d') → (m >>= f) d ≡ f a d'
  unfolding ◌>>=◌
  >>=-eq d d' a p = rw p

  >>=-sticky :
      IsParser m
      → ((a : A) → IsParser (f a))
      → (d : Decoder) (e : Error) → d.err ≡ some e
      → ((m >>= f) d).1.err ≡ some e
  unfolding ◌>>=◌
  >>=-sticky hm hf d e h = (hf (m d).0).sticky (m d).1 e (hm.sticky d e h)

  >>=-fails :
      ((a : A) → IsParser (f a)) → (d : Decoder) → HasFailed (m d).1 → HasFailed ((m >>= f) d).1
  unfolding ◌>>=◌
  >>=-fails hf d (e, h) = (e, (hf (m d).0).sticky (m d).1 e h)

  pub >>=-IsParser : IsParser m → ((a : A) → IsParser (f a)) → IsParser (m >>= f)
  >>=-IsParser hm hf = record {
    sticky = >>=-sticky hm hf;
    settles = λ input ending more. step input ending more (hm.settles input ending more);
  }
    where
      step :
          (input : Bytes) (ending : IoError) (more : Bytes)
          → Settles m input ending more
          → Settles (m >>= f) input ending more
      step input ending more (inl h) = inl (>>=-fails hf (reader input ending) h)
      step input ending more (inr (a, rest, p, q)) =
          rw (>>=-eq _ _ a p, >>=-eq _ _ a q) ((hf a).settles rest ending more)

pub if-IsParser :
    {A : Type 0} (b : Bool) (x y : Get A)
    → (b ≡ true → IsParser x)
    → (b ≡ false → IsParser y)
    → IsParser (if b then x else y)
if-IsParser true x y hx hy = hx refl
if-IsParser false x y hx hy = hy refl

pub Option-IsParser :
    {A B : Type 0} (o : Option B) (f : B → Get A) (y : Get A)
    → ((b : B) → IsParser (f b))
    → IsParser y
    → IsParser (elim o [ some b ↦ f b | none ↦ y ])
Option-IsParser (some b) f y hf hy = hf b
Option-IsParser none f y hf hy = hy

pub unless_failed-IsParser :
    {A : Type 0} (zero_value : A) (k : Get A)
    → IsParser k
    → IsParser (Decoder.unless_failed zero_value k)
unless_failed-IsParser zero_value k h = record {
  sticky = λ d e p. ground (arith, h.sticky d e p);
  settles = λ input ending more. h.settles input ending more;
}

pub read-IsParser : (n : ℕ) → IsParser (Decoder.read n)
unfolding Decoder.read
read-IsParser n = record {
  sticky = λ d e p. ground arith;
  settles = λ input ending more. elim (Option-cases (split_at n input)) [
    | inl e ↦ inl (Decoder.io (short_error input ending), ground arith)
    | inr ((p, rest), e) ↦
        inr (p, rest, ground arith, ground (arith, split_at-append_more n input more p rest e))
  ];
}

pub uint32-IsParser : IsParser Decoder.uint32
unfolding Decoder.uint32
uint32-IsParser =
    >>=-IsParser (Decoder.read 4) _ (read-IsParser 4)
      λ buf. unless_failed-IsParser 0 _ (pure-IsParser _)

pub uint64-IsParser : IsParser Decoder.uint64
unfolding Decoder.uint64
uint64-IsParser =
    >>=-IsParser (Decoder.read 8) _ (read-IsParser 8)
      λ buf. unless_failed-IsParser 0 _ (pure-IsParser _)

discard-IsParser : (n : ℕ) → IsParser (Decoder.discard n)
unfolding Decoder.discard
discard-IsParser n =
    if-IsParser (n == 0) _ _ (λ _. pure-IsParser tt)
      λ _.
        unless_failed-IsParser tt _
          (>>=-IsParser (Decoder.read n) _ (read-IsParser n) λ _. pure-IsParser tt)

padded-IsParser : (n : ℕ) → IsParser (Decoder.padded n)
unfolding Decoder.padded
padded-IsParser n = >>=-IsParser (Decoder.read n) _ (read-IsParser n) λ out.
    unless_failed-IsParser [] _ (
      >>=-IsParser (Decoder.discard (pad4 n)) _ (discard-IsParser (pad4 n))
        λ _. unless_failed-IsParser [] _ (pure-IsParser out))

guarded-IsParser :
    (n : ℕ)
    → IsParser (
        Decoder.unless_failed [] λ d.
          if ltb (Decoder.max_len_of d) n
          then Decoder.fail [] Decoder.limit_exceeded d
          else Decoder.padded n d)
guarded-IsParser n = record {
  sticky = λ d e p. ground arith;
  settles = λ input ending more. elim (Bool-cases (ltb Decoder.default_max_len n)) [
    | inl e ↦ inl (Decoder.limit_exceeded, rw e)
    | inr e ↦ rw e ((padded-IsParser n).settles input ending more)
  ];
}

pub opaque-IsParser : IsParser Decoder.opaque
unfolding Decoder.opaque
opaque-IsParser = >>=-IsParser Decoder.uint32 _ uint32-IsParser guarded-IsParser

pub string-IsParser : IsParser Decoder.string
unfolding Decoder.string
string-IsParser = opaque-IsParser

pub fixed_opaque-IsParser : (n : ℕ) → IsParser (Decoder.fixed_opaque (pos n))
unfolding Decoder.fixed_opaque
fixed_opaque-IsParser n = padded-IsParser n

pub times-IsParser : {A : Type 0} (n : ℕ) (get : Get A) → IsParser get → IsParser (times n get)
unfolding times
times-IsParser zero get h = pure-IsParser []
times-IsParser (suc n) get h =
    >>=-IsParser get _ h
      λ x. >>=-IsParser (times n get) _ (times-IsParser n get h) λ xs. pure-IsParser (x ∷ xs)

-- A proper prefix of an encoding never decodes.
pub Codec-truncated :
    {A : Type 0} (put : Put) (get : Get A) (a : A)
    → Codec put get a
    → IsParser get
    → (front back : Bytes) (x : ℕ) (ending : IoError) → written put ≡ front ++ x ∷ back
    → HasFailed (get (reader front ending)).1
Codec-truncated {A} put get a c h front back x ending e = elim (h.settles front ending (x ∷ back)) [
  | inl failed ↦ failed
  | inr (b, rest, p, q) ↦ absurd (
      omega (
        arith,
        length-append rest (x ∷ back),
        ap (λ (z : A × Decoder). length z.1.r.input) (sym q ∙ whole),
      ))
]
  where
    whole : get (reader (front ++ x ∷ back) ending) ≡ (a, reader [] ending)
    whole = rw (append-nil, e) at (Codec-decodes put get a c ending [])
