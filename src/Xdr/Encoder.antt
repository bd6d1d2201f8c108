-- ===== src/Xdr/Encoder.antt =====
-- xdr/encoder.go.
use go_nfs_client.Prelude.{
  ℕ, ◌-◌, ◌%◌, ◌^◌, Bool, Option, none, some, List, [], ◌∷◌, ◌++◌, if◌then◌else◌, length, replicate,
  ◌==◌,
}
use go_nfs_client.Prelude.Int.{ℤ, to_pattern}
use go_nfs_client.Xdr.Io.{Bytes, IoError, put_uint32, put_uint64}

-- `sent` is all that was handed to the io.Writer `w` so far, and `writer sent p` is the error that
-- its next Write answers to `p`, if any.
pub record Encoder : Type 0 where
  pub sent : Bytes
  pub writer : Bytes → Bytes → Option IoError
  pub err : Option IoError

-- A call of one method, or a sequence of such.
abbrev pub Put : Type 0
Put = Encoder → Encoder

infixl 5 ◌>>◌
unfoldable pub ◌>>◌ : Put → Put → Put
◌>>◌ f g e = g (f e)

unfoldable pub skip : Put
skip e = e

-- `for _, x := range xs { put(x) }`
unfoldable pub each {ℓ} : {A : Type ℓ} → (A → Put) → List A → Put
each put [] = skip
each put (x ∷ xs) = put x >> each put xs

abbrev pub new_encoder : (Bytes → Bytes → Option IoError) → Encoder
new_encoder w = record { sent = []; writer = w; err = none }

unfoldable pub write : Bytes → Put
write p e = elim e.err [
  | some x ↦ e
  | none ↦ record e { sent = e.sent ++ p; err = e.writer e.sent p }
]

abbrev pub pad4 : ℕ → ℕ
pad4 n = let r = n % 4 in if r == 0 then 0 else 4 - r

unfoldable pub pad : ℕ → Put
unfolding skip write
pad n = if n == 0 then skip else write (replicate n 0)

unfoldable pub uint32 : ℕ → Put
uint32 v = write (put_uint32 v)

unfoldable pub int32 : ℤ → Put
int32 v = uint32 (to_pattern (2 ^ 32) v)

unfoldable pub uint64 : ℕ → Put
uint64 v = write (put_uint64 v)

unfoldable pub int64 : ℤ → Put
int64 v = uint64 (to_pattern (2 ^ 64) v)

unfoldable pub bool : Bool → Put
bool v = if v then uint32 1 else uint32 0

-- `uint32(len(p))` keeps the low 32 bits.
unfoldable pub opaque : Bytes → Put
unfolding ◌>>◌
opaque p = do uint32 (length p % 2 ^ 32); write p; pad (pad4 (length p))

unfoldable pub fixed_opaque : Bytes → Put
unfolding ◌>>◌
fixed_opaque p = do write p; pad (pad4 (length p))

unfoldable pub string : Bytes → Put
unfolding ◌>>◌
string s = do uint32 (length s % 2 ^ 32); write s; pad (pad4 (length s))

-- A nil `encodeArm` is `none`.
unfoldable pub union : ℕ → Option Put → Put
unfolding ◌>>◌ skip
union discriminant encode_arm = do
  uint32 discriminant
  elim encode_arm [ none ↦ skip | some arm ↦ arm ]
