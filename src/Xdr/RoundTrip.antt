-- ===== src/Xdr/RoundTrip.antt =====
-- Decoding what was encoded, for each method of the codec.
use go_nfs_client.Prelude.{
  ℕ, ◌^◌, ◌≤◌, ◌<◌, ◌≡◌, refl, zero, suc, Bool, not, ◌==◌, true, false, ◌++◌, ◌%◌, arith, length,
  le→ltb, replicate, split_at-append, length-replicate, append_assoc,
}
use go_nfs_client.Prelude.Int.{
  ℤ, pos, Fits, to_pattern, of_pattern, of_pattern-to_pattern32, of_pattern-to_pattern64,
  to_pattern-lt32, to_pattern-lt64,
}
use go_nfs_client.Xdr.Io.{
  Bytes, IoError, put_uint32, put_uint64, big_endian-put_uint32, big_endian-put_uint64,
}
use go_nfs_client.Xdr.Encoder
use go_nfs_client.Xdr.Encoder.{pad4}
use go_nfs_client.Xdr.Decoder
use go_nfs_client.Xdr.Decoder.{default_max_len, ◌>>=◌, pure}
use go_nfs_client.Xdr.Codec.{
  Codec, Emits, Reads, Emits-then, Codec-map, Codec-decodes, Emits-skip, reader, written,
}

pub uint32-Emits : (v : ℕ) → Emits (Encoder.uint32 v) (put_uint32 v)
unfolding Encoder.uint32 Encoder.write
uint32-Emits v out = refl

pub uint32-Reads : (v : ℕ) → v < 2 ^ 32 → Reads Decoder.uint32 (put_uint32 v) v
unfolding Decoder.uint32 Decoder.read ◌>>=◌ pure put_uint32
uint32-Reads v h ending rest = rw (big_endian-put_uint32 v h)

pub uint32-Codec : (v : ℕ) → v < 2 ^ 32 → Codec (Encoder.uint32 v) Decoder.uint32 v
uint32-Codec v h = record { bytes = put_uint32 v; emits = uint32-Emits v; reads = uint32-Reads v h }

uint64-Reads : (v : ℕ) → v < 2 ^ 64 → Reads Decoder.uint64 (put_uint64 v) v
unfolding Decoder.uint64 Decoder.read ◌>>=◌ pure put_uint64
uint64-Reads v h ending rest = rw (big_endian-put_uint64 v h)

pub uint64-Codec : (v : ℕ) → v < 2 ^ 64 → Codec (Encoder.uint64 v) Decoder.uint64 v
unfolding Encoder.uint64 Encoder.write
uint64-Codec v h = record { bytes = put_uint64 v; emits = λ out. refl; reads = uint64-Reads v h }

pub int32-Codec : (v : ℤ) → Fits (2 ^ 31) v → Codec (Encoder.int32 v) Decoder.int32 v
unfolding Encoder.int32 Decoder.int32
int32-Codec v h = rw (of_pattern-to_pattern32 v h) at (
    Codec-map (of_pattern (2 ^ 31) (2 ^ 32))
      (uint32-Codec (to_pattern (2 ^ 32) v) (to_pattern-lt32 v)))

pub int64-Codec : (v : ℤ) → Fits (2 ^ 63) v → Codec (Encoder.int64 v) Decoder.int64 v
unfolding Encoder.int64 Decoder.int64
int64-Codec v h = rw (of_pattern-to_pattern64 v h) at (
    Codec-map (of_pattern (2 ^ 63) (2 ^ 64))
      (uint64-Codec (to_pattern (2 ^ 64) v) (to_pattern-lt64 v)))

pub bool-Codec : (v : Bool) → Codec (Encoder.bool v) Decoder.bool v
unfolding Encoder.bool Decoder.bool
bool-Codec true = Codec-map (λ v. not (v == 0)) (uint32-Codec 1 (omega arith))
bool-Codec false = Codec-map (λ v. not (v == 0)) (uint32-Codec 0 (omega arith))

read-Reads : (p : Bytes) → Reads (Decoder.read (length p)) p p
unfolding Decoder.read
read-Reads p ending rest = ground (arith, split_at-append p rest)

write-Emits : (p : Bytes) → Emits (Encoder.write p) p
unfolding Encoder.write
write-Emits p out = refl

pad-Emits : (n : ℕ) → Emits (Encoder.pad n) (replicate n 0)
unfolding Encoder.pad
pad-Emits zero out = Emits-skip out
pad-Emits (suc n) out = ground arith

read_zeros-Reads : (n : ℕ) → Reads (Decoder.read n) (replicate n 0) (replicate n 0)
read_zeros-Reads n = rw (length-replicate {A = ℕ} n 0) at (read-Reads (replicate n 0))

discard-Reads : (n : ℕ) → Reads (Decoder.discard n) (replicate n 0) tt
unfolding Decoder.discard ◌>>=◌ pure
discard-Reads zero ending rest = refl
discard-Reads (suc n) ending rest = ground (arith, read_zeros-Reads (suc n) ending rest)

-- A field's bytes and its padding.
abbrev pub with_padding : Bytes → Bytes
with_padding p = p ++ replicate (pad4 (length p)) 0

padded-Reads : (p : Bytes) → Reads (Decoder.padded (length p)) (with_padding p) p
unfolding Decoder.padded ◌>>=◌ pure
padded-Reads p ending rest =
    let zeros : Bytes = replicate (pad4 (length p)) 0 in
    rw (
      append_assoc p zeros rest,
      read-Reads p ending (zeros ++ rest),
      discard-Reads (pad4 (length p)) ending rest,
    )

pub fixed_opaque-Emits : (p : Bytes) → Emits (Encoder.fixed_opaque p) (with_padding p)
unfolding Encoder.fixed_opaque
fixed_opaque-Emits p out =
    Emits-then (Encoder.write p) (Encoder.pad (pad4 (length p))) p (replicate (pad4 (length p)) 0)
      (write-Emits p) (pad-Emits (pad4 (length p))) out

pub fixed_opaque-Codec :
    (p : Bytes) → Codec (Encoder.fixed_opaque p) (Decoder.fixed_opaque (pos (length p))) p
unfolding Decoder.fixed_opaque
fixed_opaque-Codec p = record {
  bytes = with_padding p;
  emits = fixed_opaque-Emits p;
  reads = padded-Reads p;
}

opaque-Reads :
    (p : Bytes)
    → length p ≤ default_max_len
    → Reads Decoder.opaque (put_uint32 (length p % 2 ^ 32) ++ with_padding p) p
unfolding Decoder.opaque ◌>>=◌ pure
opaque-Reads p h ending rest =
    let e : length p % 2 ^ 32 ≡ length p = omega arith in
    let zeros : Bytes = replicate (pad4 (length p)) 0 in
    rw
      (
        e,
        append_assoc (put_uint32 (length p)) (with_padding p) rest,
        uint32-Reads (length p) (omega arith) ending (with_padding p ++ rest),
        le→ltb default_max_len (length p) h,
      )
      (padded-Reads p ending rest)

pub opaque-Emits :
    (p : Bytes) → Emits (Encoder.opaque p) (put_uint32 (length p % 2 ^ 32) ++ with_padding p)
unfolding Encoder.opaque Encoder.fixed_opaque
opaque-Emits p out =
    Emits-then (Encoder.uint32 (length p % 2 ^ 32)) (Encoder.fixed_opaque p)
      (put_uint32 (length p % 2 ^ 32)) (with_padding p) (uint32-Emits (length p % 2 ^ 32))
      (fixed_opaque-Emits p) out

pub opaque-Codec :
    (p : Bytes) → length p ≤ default_max_len → Codec (Encoder.opaque p) Decoder.opaque p
opaque-Codec p h = record {
  bytes = put_uint32 (length p % 2 ^ 32) ++ with_padding p;
  emits = opaque-Emits p;
  reads = opaque-Reads p h;
}

pub string-Codec :
    (p : Bytes) → length p ≤ default_max_len → Codec (Encoder.string p) Decoder.string p
unfolding Encoder.string Decoder.string Encoder.opaque
string-Codec p h = opaque-Codec p h

-- An opaque or a string within the decoder's limit reads back as the bytes that were encoded, and a
-- fixed-length opaque does at any length; what follows the field and its padding is left.
pub opaque_roundtrip :
    (p rest : Bytes) (ending : IoError)
    → length p ≤ default_max_len
    → (Decoder.opaque (reader (written (Encoder.opaque p) ++ rest) ending)
        ≡ (p, reader rest ending))
      × (Decoder.string (reader (written (Encoder.string p) ++ rest) ending)
          ≡ (p, reader rest ending))
      × (Decoder.fixed_opaque
            (pos (length p))
            (reader (written (Encoder.fixed_opaque p) ++ rest) ending)
          ≡ (p, reader rest ending))
opaque_roundtrip p rest ending h = (
  Codec-decodes _ _ p (opaque-Codec p h) ending rest,
  Codec-decodes _ _ p (string-Codec p h) ending rest,
  Codec-decodes _ _ p (fixed_opaque-Codec p) ending rest,
)

-- Integers within their width and booleans read back, the signed ones through two's complement.
pub scalars_roundtrip :
    (u v : ℕ) (i j : ℤ) (b : Bool) (rest : Bytes) (ending : IoError)
    → u < 2 ^ 32
    → v < 2 ^ 64
    → Fits (2 ^ 31) i
    → Fits (2 ^ 63) j
    → (Decoder.uint32 (reader (written (Encoder.uint32 u) ++ rest) ending)
        ≡ (u, reader rest ending))
      × (Decoder.uint64 (reader (written (Encoder.uint64 v) ++ rest) ending)
          ≡ (v, reader rest ending))
      × (Decoder.int32 (reader (written (Encoder.int32 i) ++ rest) ending)
          ≡ (i, reader rest ending))
      × (Decoder.int64 (reader (written (Encoder.int64 j) ++ rest) ending)
          ≡ (j, reader rest ending))
      × (Decoder.bool (reader (written (Encoder.bool b) ++ rest) ending) ≡ (b, reader rest ending))
scalars_roundtrip u v i j b rest ending hu hv hi hj = (
  Codec-decodes _ _ u (uint32-Codec u hu) ending rest,
  Codec-decodes _ _ v (uint64-Codec v hv) ending rest,
  Codec-decodes _ _ i (int32-Codec i hi) ending rest,
  Codec-decodes _ _ j (int64-Codec j hj) ending rest,
  Codec-decodes _ _ b (bool-Codec b) ending rest,
)
