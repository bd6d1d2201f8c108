-- ===== src/Xdr/Decoder.antt =====
-- xdr/decoder.go.
use go_nfs_client.Prelude.{
  ℕ, ◌*◌, ◌^◌, Bool, not, Option, none, some, List, [], ◌∷◌, zero, suc, if◌then◌else◌, ltb, ◌==◌,
}
use go_nfs_client.Prelude.Int.{ℤ, pos, negsuc, of_pattern}
use go_nfs_client.Xdr.Io.{Bytes, IoError, Stream, full, short, read_full, big_endian}
use go_nfs_client.Xdr.Encoder.{pad4}

pub data Error : Type 0 where
  io : IoError → Error
  limit_exceeded : Error

pub record Decoder : Type 0 where
  pub r : Stream
  pub max_len : ℕ
  pub err : Option Error

-- A method returns its value and the decoder after the call.
abbrev pub Get : Type 0 → Type 0
Get A = Decoder → A × Decoder

unfoldable pub pure : {A : Type 0} → A → Get A
pure a d = (a, d)

infixl 5 ◌>>=◌
unfoldable pub ◌>>=◌ : {A B : Type 0} → Get A → (A → Get B) → Get B
◌>>=◌ m f d = let (a, d') = m d in f a d'

-- `d.Err()`
unfoldable pub get_err : Get (Option Error)
get_err d = (d.err, d)

-- `if d.err != nil { return zero }`, and the rest of the method.
abbrev pub unless_failed : {A : Type 0} → A → Get A → Get A
unless_failed zero_value k d = elim d.err [ some e ↦ (zero_value, d) | none ↦ k d ]

abbrev pub fail : {A : Type 0} → A → Error → Get A
fail zero_value e d = (zero_value, record d { err = some e })

abbrev pub default_max_len : ℕ
default_max_len = 64 * 2 ^ 20

abbrev pub new_decoder : Stream → Decoder
new_decoder r = record { r = r; max_len = 0; err = none }

abbrev pub max_len_of : Decoder → ℕ
max_len_of d = if d.max_len == 0 then default_max_len else d.max_len

-- Fills a buffer of `n` bytes; the bytes are returned, and none where the read fails.
unfoldable pub read : ℕ → Get Bytes
unfolding read_full
read n = unless_failed [] λ d. elim (read_full n d.r) [
  | full p rest ↦ (p, record d { r = rest })
  | short e rest ↦ ([], record d { r = rest; err = some (io e) })
]

unfoldable pub discard : ℕ → Get (Unit {0})
discard n = if n == 0 then pure tt else unless_failed tt (do _ ← read n; pure tt)

unfoldable pub uint32 : Get ℕ
unfolding big_endian
uint32 = do buf ← read 4; unless_failed 0 (pure (big_endian 0 buf))

unfoldable pub int32 : Get ℤ
int32 = do v ← uint32; pure (of_pattern (2 ^ 31) (2 ^ 32) v)

unfoldable pub uint64 : Get ℕ
unfolding big_endian
uint64 = do buf ← read 8; unless_failed 0 (pure (big_endian 0 buf))

unfoldable pub int64 : Get ℤ
int64 = do v ← uint64; pure (of_pattern (2 ^ 63) (2 ^ 64) v)

unfoldable pub bool : Get Bool
bool = do v ← uint32; pure (not (v == 0))

-- The bytes of a field of `n` bytes and its padding.
unfoldable pub padded : ℕ → Get Bytes
padded n = do out ← read n; unless_failed [] (do _ ← discard (pad4 n); unless_failed [] (pure out))

unfoldable pub opaque : Get Bytes
opaque = do
  n ← uint32
  unless_failed [] λ d. if ltb (max_len_of d) n then fail [] limit_exceeded d else padded n d

unfoldable pub fixed_opaque : ℤ → Get Bytes
fixed_opaque (negsuc n) = fail [] limit_exceeded
fixed_opaque (pos n) = padded n

unfoldable pub string : Get Bytes
string = opaque

-- A nil `decodeArm` is `none`.
unfoldable pub union : Option (ℕ → Get (Unit {0})) → Get ℕ
union decode_arm = do
  disc ← uint32
  unless_failed 0 do _ ← elim decode_arm [ none ↦ pure tt | some arm ↦ arm disc ]; pure disc

-- `for i := range out { out[i] = get() }`, over a slice of length `n`.
unfoldable pub times : {A : Type 0} → ℕ → Get A → Get (List A)
times zero get = pure []
times (suc n) get = do x ← get; xs ← times n get; pure (x ∷ xs)
