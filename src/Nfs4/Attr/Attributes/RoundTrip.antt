-- ===== src/Nfs4/Attr/Attributes/RoundTrip.antt =====
-- fattr4 as RFC 7530 lays it out: what a server writes for a mask, and how attr.Decode reads it.
use go_nfs_client.Prelude.{ℕ, ◌^◌, ◌≡◌, refl, ap, Option, some, none, List, [], ◌∷◌, map, All}
use go_nfs_client.Prelude.Int.{ℤ, Fits}
use go_nfs_client.Xdr.Io.{Bytes, eof}
use go_nfs_client.Xdr.Encoder
use go_nfs_client.Xdr.Encoder.{Put, each, ◌>>◌}
use go_nfs_client.Xdr.Decoder
use go_nfs_client.Xdr.Decoder.{Decoder, Get, pure, get_err, ◌>>=◌}
use go_nfs_client.Xdr.Codec.{
  Codec, Codec-then, Codec-map, Codec-end, Codec-pure, Codec-get_err, Codec-whole, written,
}
use go_nfs_client.Xdr.RoundTrip.{uint32-Codec, uint64-Codec, int64-Codec, string-Codec}
use go_nfs_client.Nfs4.Types.{U32, U64, Small}
use go_nfs_client.Nfs4.Attr.Bitmap.{Mask, set_attrs}
use go_nfs_client.Nfs4.Attr.Attributes.{
  Fsid, SpecData, unix, zero_time, Attributes, new_attributes, decode_time, decode_attr,
  decode_attrs, decode, Decoded, ok,
}

-- An attribute with its value.
pub data Value : Type 0 where
  ftype size file_id mode num_links space_used : ℕ → Value
  fsid : Fsid → Value
  owner owner_group : Bytes → Value
  raw_dev : SpecData → Value
  time_access time_metadata time_modify : ℤ → ℕ → Value

abbrev pub num_of : Value → ℕ
num_of (ftype v) = 1
num_of (size v) = 4
num_of (fsid v) = 8
num_of (file_id v) = 20
num_of (mode v) = 33
num_of (num_links v) = 35
num_of (owner v) = 36
num_of (owner_group v) = 37
num_of (raw_dev v) = 41
num_of (space_used v) = 45
num_of (time_access s n) = 47
num_of (time_metadata s n) = 52
num_of (time_modify s n) = 53

abbrev pub put_value : Value → Put
put_value (ftype v) = Encoder.uint32 v
put_value (size v) = Encoder.uint64 v
put_value (fsid v) = Encoder.uint64 v.major >> Encoder.uint64 v.minor
put_value (file_id v) = Encoder.uint64 v
put_value (mode v) = Encoder.uint32 v
put_value (num_links v) = Encoder.uint32 v
put_value (owner v) = Encoder.string v
put_value (owner_group v) = Encoder.string v
put_value (raw_dev v) = Encoder.uint32 v.spec1 >> Encoder.uint32 v.spec2
put_value (space_used v) = Encoder.uint64 v
put_value (time_access s n) = Encoder.int64 s >> Encoder.uint32 n
put_value (time_metadata s n) = Encoder.int64 s >> Encoder.uint32 n
put_value (time_modify s n) = Encoder.int64 s >> Encoder.uint32 n

abbrev pub FitsValue : Value → Type 0
FitsValue (ftype v) = U32 v
FitsValue (size v) = U64 v
FitsValue (fsid v) = U64 v.major × U64 v.minor
FitsValue (file_id v) = U64 v
FitsValue (mode v) = U32 v
FitsValue (num_links v) = U32 v
FitsValue (owner v) = Small v
FitsValue (owner_group v) = Small v
FitsValue (raw_dev v) = U32 v.spec1 × U32 v.spec2
FitsValue (space_used v) = U64 v
FitsValue (time_access s n) = Fits (2 ^ 63) s × U32 n
FitsValue (time_metadata s n) = Fits (2 ^ 63) s × U32 n
FitsValue (time_modify s n) = Fits (2 ^ 63) s × U32 n

-- The attributes with one value stored in its field.
abbrev pub store : Value → Attributes → Attributes
store (ftype v) a = record a { ftype = v }
store (size v) a = record a { size = v }
store (fsid v) a = record a { fsid = v }
store (file_id v) a = record a { file_id = v }
store (mode v) a = record a { mode = v }
store (num_links v) a = record a { num_links = v }
store (owner v) a = record a { owner = v }
store (owner_group v) a = record a { owner_group = v }
store (raw_dev v) a = record a { raw_dev = v }
store (space_used v) a = record a { space_used = v }
store (time_access s n) a = record a { time_access = unix s n }
store (time_metadata s n) a = record a { time_meta = unix s n }
store (time_modify s n) a = record a { time_modify = unix s n }

abbrev pub store_all : List Value → Attributes → Attributes
store_all [] a = a
store_all (v ∷ values) a = store_all values (store v a)

nsecs-Codec :
    (s : ℤ) (n : ℕ)
    → U32 n
    → Codec
        (Encoder.uint32 n)
        (Decoder.uint32 >>= λ nsecs.
          get_err >>= λ e. pure (elim e [ some x ↦ zero_time | none ↦ unix s nsecs ]))
        (unix s n)
unfolding get_err ◌>>=◌ pure
nsecs-Codec s n h =
    Codec-end (λ nsecs. get_err >>= λ e. pure (elim e [ some x ↦ zero_time | none ↦ unix s nsecs ]))
      (uint32-Codec n h) (λ ending rest. refl)

time-Codec :
    (s : ℤ) (n : ℕ)
    → Fits (2 ^ 63) s
    → U32 n
    → Codec (Encoder.int64 s >> Encoder.uint32 n) decode_time (unix s n)
unfolding decode_time
time-Codec s n hs hn = Codec-then _ (int64-Codec s hs) (nsecs-Codec s n hn)

-- Each attribute's value reads back into its field.
value-Codec :
    (v : Value) (a : Attributes)
    → FitsValue v
    → Codec (put_value v) (decode_attr (num_of v) a) (some (store v a))
unfolding decode_attr
value-Codec (ftype v) a h =
    Codec-map {B = Option Attributes} (λ x. some (record a { ftype = x })) (uint32-Codec v h)
value-Codec (size v) a h =
    Codec-map {B = Option Attributes} (λ x. some (record a { size = x })) (uint64-Codec v h)
value-Codec (fsid v) a h = Codec-then _ (uint64-Codec v.major h.0) (
    Codec-map {B = Option Attributes}
      (λ x. some (record a { fsid = record { major = v.major; minor = x } }))
      (uint64-Codec v.minor h.1))
value-Codec (file_id v) a h =
    Codec-map {B = Option Attributes} (λ x. some (record a { file_id = x })) (uint64-Codec v h)
value-Codec (mode v) a h =
    Codec-map {B = Option Attributes} (λ x. some (record a { mode = x })) (uint32-Codec v h)
value-Codec (num_links v) a h =
    Codec-map {B = Option Attributes} (λ x. some (record a { num_links = x })) (uint32-Codec v h)
value-Codec (owner v) a h =
    Codec-map {B = Option Attributes} (λ x. some (record a { owner = x })) (string-Codec v h)
value-Codec (owner_group v) a h =
    Codec-map {B = Option Attributes} (λ x. some (record a { owner_group = x })) (string-Codec v h)
value-Codec (raw_dev v) a h = Codec-then _ (uint32-Codec v.spec1 h.0) (
    Codec-map {B = Option Attributes}
      (λ x. some (record a { raw_dev = record { spec1 = v.spec1; spec2 = x } }))
      (uint32-Codec v.spec2 h.1))
value-Codec (space_used v) a h =
    Codec-map {B = Option Attributes} (λ x. some (record a { space_used = x })) (uint64-Codec v h)
value-Codec (time_access s n) a h =
    Codec-map {B = Option Attributes} (λ x. some (record a { time_access = x }))
      (time-Codec s n h.0 h.1)
value-Codec (time_metadata s n) a h =
    Codec-map {B = Option Attributes} (λ x. some (record a { time_meta = x }))
      (time-Codec s n h.0 h.1)
value-Codec (time_modify s n) a h =
    Codec-map {B = Option Attributes} (λ x. some (record a { time_modify = x }))
      (time-Codec s n h.0 h.1)

values-Codec :
    (values : List Value) (a : Attributes)
    → All FitsValue values
    → Codec (each put_value values) (decode_attrs (map num_of values) a) (ok (store_all values a))
unfolding each decode_attrs
values-Codec [] a h = Codec-pure (ok a)
values-Codec (v ∷ values) a h =
    Codec-then _ (value-Codec v a h.0) (Codec-get_err _ (values-Codec values (store v a) h.1))

-- If a server writes the values of just the attributes of the mask, in the order of their numbers,
-- and all are among the supported ones, then Decode reads each value into its field and leaves the
-- other fields zero.
pub decode_lem :
    (mask : Mask) (values : List Value)
    → map num_of values ≡ set_attrs mask
    → All FitsValue values
    → decode mask (written (each put_value values)) ≡ ok (store_all values (new_attributes mask))
unfolding decode
decode_lem mask values e h =
    rw⁻¹ (e, decode)
      (ap (λ (z : Decoded × Decoder). z.0)
        (Codec-whole _ _ _ eof (values-Codec values (new_attributes mask) h)))
