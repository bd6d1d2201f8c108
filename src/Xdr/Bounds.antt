-- ===== src/Xdr/Bounds.antt =====
-- The size limit of variable-length fields, and the alignment of what is written.
use go_nfs_client.Prelude.{
  ℕ, ◌+◌, ◌%◌, ◌^◌, ◌≤◌, ◌<◌, ◌≡◌, refl, ap, inl, inr, none, some, [], ◌++◌, arith, length,
  length-append, length-replicate, replicate, split_at, split_at-length, Option-cases, lt→ltb,
}
use go_nfs_client.Xdr.Io.{Bytes, IoError, put_uint32}
use go_nfs_client.Xdr.Encoder
use go_nfs_client.Xdr.Encoder.{pad4, ◌>>◌}
use go_nfs_client.Xdr.Decoder
use go_nfs_client.Xdr.Decoder.{Decoder, limit_exceeded, default_max_len, max_len_of, ◌>>=◌, pure}
use go_nfs_client.Xdr.Codec.{reader, written, Emits-written}
use go_nfs_client.Xdr.RoundTrip.{uint32-Reads, opaque-Emits, fixed_opaque-Emits, with_padding}

-- A successful read of `n` bytes returns `n` bytes.
read-length :
    (n : ℕ) (d d' : Decoder) (p : Bytes) → Decoder.read n d ≡ (p, d') → d'.err ≡ none → length p ≡ n
unfolding Decoder.read
read-length n d d' p h e = elim (Option-cases (split_at n d.r.input)) [
  | inl x ↦ ground arith
  | inr ((q, rest), x) ↦ ground (arith, split_at-length n d.r.input q rest x)
]

padded-length :
    (n : ℕ) (d d' : Decoder) (p : Bytes)
    → Decoder.padded n d ≡ (p, d')
    → d'.err ≡ none
    → length p ≡ n
unfolding Decoder.padded ◌>>=◌ pure
padded-length n d d' p h e =
    ground (arith, read-length n d (Decoder.read n d).1 (Decoder.read n d).0 refl)

uint32-max_len : (d : Decoder) → (Decoder.uint32 d).1.max_len ≡ d.max_len
unfolding Decoder.uint32 Decoder.read ◌>>=◌ pure
uint32-max_len d = ground arith

-- `make([]byte, n)` for the declared length `n` of a field, at most `max_len_of`.
pub opaque-length-le :
    (d d' : Decoder) (p : Bytes)
    → Decoder.opaque d ≡ (p, d')
    → d'.err ≡ none
    → length p ≤ max_len_of d
unfolding Decoder.opaque ◌>>=◌ pure
opaque-length-le d d' p h e =
    ground (arith, padded-length (Decoder.uint32 d).0 (Decoder.uint32 d).1 d' p, uint32-max_len d)

-- A field that declares more than the limit is refused before its bytes are read or allocated:
-- the decoder stands right behind the length, with limit_exceeded as its error.
pub opaque_refuses_large :
    (n : ℕ) (rest : Bytes) (ending : IoError)
    → n < 2 ^ 32
    → default_max_len < n
    → Decoder.opaque (reader (put_uint32 n ++ rest) ending)
      ≡ ([], record (reader rest ending) { err = some limit_exceeded })
unfolding Decoder.opaque ◌>>=◌
opaque_refuses_large n rest ending h large =
    rw (uint32-Reads n h ending rest, lt→ltb default_max_len n large)

length-with_padding : (p : Bytes) → length (with_padding p) ≡ length p + pad4 (length p)
length-with_padding p = omega (
  arith,
  length-append p (replicate (pad4 (length p)) 0),
  length-replicate {A = ℕ} (pad4 (length p)) 0,
)

pad4_aligns : (n : ℕ) → ((n + pad4 n) % 4 ≡ 0) × (pad4 n < 4)
pad4_aligns n = ground arith

-- Whatever is written as an opaque, a fixed-length opaque or a string fills whole units of four
-- bytes, and at most three of them are padding.
pub opaque_aligned :
    (p : Bytes)
    → (length (written (Encoder.opaque p)) % 4 ≡ 0)
      × (length (written (Encoder.fixed_opaque p)) % 4 ≡ 0)
      × (length (written (Encoder.string p)) % 4 ≡ 0)
      × (length (written (Encoder.fixed_opaque p)) < length p + 4)
unfolding Encoder.string Encoder.opaque ◌>>◌ put_uint32
opaque_aligned p = omega (
  arith,
  pad4_aligns (length p),
  length-with_padding p,
  ap (length {0}) (Emits-written (Encoder.fixed_opaque p) _ (fixed_opaque-Emits p)),
  ap (length {0}) (Emits-written (Encoder.opaque p) _ (opaque-Emits p)),
)
