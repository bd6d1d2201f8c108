-- ===== src/Nfs4/Attr/Attributes.antt =====
-- nfs4/attr/attr.go: fattr4 values.
pub mod RoundTrip
use go_nfs_client.Prelude.{
  ℕ, ◌/◌, ◌%◌, Bool, true, false, Option, some, none, List, [], ◌∷◌, if◌then◌else◌, ◌==◌,
}
use go_nfs_client.Prelude.Int.{ℤ}
use go_nfs_client.Xdr.Io.{Bytes, eof}
use go_nfs_client.Xdr.Decoder
use go_nfs_client.Xdr.Decoder.{Get, pure, get_err, ◌>>=◌}
use go_nfs_client.Xdr.Codec.{reader}
use go_nfs_client.Nfs4.Attr.Bitmap.{
  Mask, set_attrs, attr_type, attr_size, attr_fsid, attr_file_id, attr_mode, attr_num_links,
  attr_owner, attr_owner_group, attr_raw_dev, attr_space_used, attr_time_access, attr_time_metadata,
  attr_time_modify,
}

pub record Fsid : Type 0 where
  pub major : ℕ
  pub minor : ℕ

pub record SpecData : Type 0 where
  pub spec1 : ℕ
  pub spec2 : ℕ

-- A time.Time, as it is made: `time.Time{}`, or `time.Unix(secs, nsecs).UTC()`.
pub data Time : Type 0 where
  zero_time : Time
  unix : ℤ → ℕ → Time

pub record Attributes : Type 0 where
  pub present : Mask
  pub ftype : ℕ
  pub size : ℕ
  pub fsid : Fsid
  pub file_id : ℕ
  pub mode : ℕ
  pub num_links : ℕ
  pub owner : Bytes
  pub owner_group : Bytes
  pub raw_dev : SpecData
  pub space_used : ℕ
  pub time_access : Time
  pub time_meta : Time
  pub time_modify : Time

-- `&Attributes{Present: mask}`
abbrev pub new_attributes : Mask → Attributes
new_attributes mask = record {
  present = mask;
  ftype = 0;
  size = 0;
  fsid = record { major = 0; minor = 0 };
  file_id = 0;
  mode = 0;
  num_links = 0;
  owner = [];
  owner_group = [];
  raw_dev = record { spec1 = 0; spec2 = 0 };
  space_used = 0;
  time_access = zero_time;
  time_meta = zero_time;
  time_modify = zero_time;
}

unfoldable pub decode_time : Get Time
decode_time = do
  secs ← Decoder.int64
  nsecs ← Decoder.uint32
  e ← get_err
  pure (elim e [ some x ↦ zero_time | none ↦ unix secs nsecs ])

-- One round of the switch; none for an attribute that is not supported.
unfoldable pub decode_attr : ℕ → Attributes → Get (Option Attributes)
decode_attr num a =
    if num == attr_type
    then (do v ← Decoder.uint32; pure (some (record a { ftype = v })))
    else if num == attr_size
    then (do v ← Decoder.uint64; pure (some (record a { size = v })))
    else if num == attr_fsid
    then (do
      v ← Decoder.uint64
      w ← Decoder.uint64
      pure (some (record a { fsid = record { major = v; minor = w } })))
    else if num == attr_file_id
    then (do v ← Decoder.uint64; pure (some (record a { file_id = v })))
    else if num == attr_mode
    then (do v ← Decoder.uint32; pure (some (record a { mode = v })))
    else if num == attr_num_links
    then (do v ← Decoder.uint32; pure (some (record a { num_links = v })))
    else if num == attr_owner
    then (do v ← Decoder.string; pure (some (record a { owner = v })))
    else if num == attr_owner_group
    then (do v ← Decoder.string; pure (some (record a { owner_group = v })))
    else if num == attr_raw_dev
    then (do
      v ← Decoder.uint32
      w ← Decoder.uint32
      pure (some (record a { raw_dev = record { spec1 = v; spec2 = w } })))
    else if num == attr_space_used
    then (do v ← Decoder.uint64; pure (some (record a { space_used = v })))
    else if num == attr_time_access
    then (do v ← decode_time; pure (some (record a { time_access = v })))
    else if num == attr_time_metadata
    then (do v ← decode_time; pure (some (record a { time_meta = v })))
    else if num == attr_time_modify
    then (do v ← decode_time; pure (some (record a { time_modify = v })))
    else pure none

pub data Error : Type 0 where
  unsupported : ℕ → Error
  decoding : ℕ → Decoder.Error → Error

pub data Decoded : Type 0 where
  ok : Attributes → Decoded
  err : Error → Decoded

unfoldable pub decode_attrs : List ℕ → Attributes → Get Decoded
decode_attrs [] a = pure (ok a)
decode_attrs (num ∷ nums) a = do
  got ← decode_attr num a
  elim got [
    | none ↦ pure (err (unsupported num))
    | some a' ↦ (do
      e ← get_err
      elim e [ some x ↦ pure (err (decoding num x)) | none ↦ decode_attrs nums a' ])
  ]

-- attr.Decode; `vals` is read through a bytes.Reader.
unfoldable pub decode : Mask → Bytes → Decoded
decode mask vals = (decode_attrs (set_attrs mask) (new_attributes mask) (reader vals eof)).0
