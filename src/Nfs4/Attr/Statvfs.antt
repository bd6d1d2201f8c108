-- ===== src/Nfs4/Attr/Statvfs.antt =====
-- nfs4/attr/statvfs.go: file system statistics.
use go_nfs_client.Prelude.{ℕ, Option, some, none, List, [], ◌∷◌, if◌then◌else◌, ◌==◌}
use go_nfs_client.Xdr.Io.{Bytes, eof}
use go_nfs_client.Xdr.Decoder
use go_nfs_client.Xdr.Decoder.{Get, pure, get_err, ◌>>=◌}
use go_nfs_client.Xdr.Codec.{reader}
use go_nfs_client.Nfs4.Attr.Bitmap.{Mask, bitmap_for, set_attrs, attr_fsid}
use go_nfs_client.Nfs4.Attr.Attributes.{Fsid, Error, unsupported, decoding}

abbrev pub attr_files_avail : ℕ
attr_files_avail = 21

abbrev pub attr_files_free : ℕ
attr_files_free = 22

abbrev pub attr_files_total : ℕ
attr_files_total = 23

abbrev pub attr_max_name : ℕ
attr_max_name = 30

abbrev pub attr_space_avail : ℕ
attr_space_avail = 42

abbrev pub attr_space_free : ℕ
attr_space_free = 43

abbrev pub attr_space_total : ℕ
attr_space_total = 44

unfoldable pub statvfs_mask : Mask
statvfs_mask = bitmap_for (
    attr_fsid ∷ attr_files_avail ∷ attr_files_free ∷ attr_files_total ∷ attr_max_name
    ∷ attr_space_avail ∷ attr_space_free ∷ attr_space_total ∷ [])

pub record Statvfs : Type 0 where
  pub present : Mask
  pub fsid : Fsid
  pub files_avail : ℕ
  pub files_free : ℕ
  pub files_total : ℕ
  pub max_name : ℕ
  pub space_avail : ℕ
  pub space_free : ℕ
  pub space_total : ℕ

abbrev pub new_statvfs : Mask → Statvfs
new_statvfs mask = record {
  present = mask;
  fsid = record { major = 0; minor = 0 };
  files_avail = 0;
  files_free = 0;
  files_total = 0;
  max_name = 0;
  space_avail = 0;
  space_free = 0;
  space_total = 0;
}

-- One round of the switch; none for an attribute that is not supported.
unfoldable pub decode_stat : ℕ → Statvfs → Get (Option Statvfs)
decode_stat num s =
    if num == attr_fsid
    then (do
      v ← Decoder.uint64
      w ← Decoder.uint64
      pure (some (record s { fsid = record { major = v; minor = w } })))
    else if num == attr_files_avail
    then (do v ← Decoder.uint64; pure (some (record s { files_avail = v })))
    else if num == attr_files_free
    then (do v ← Decoder.uint64; pure (some (record s { files_free = v })))
    else if num == attr_files_total
    then (do v ← Decoder.uint64; pure (some (record s { files_total = v })))
    else if num == attr_max_name
    then (do v ← Decoder.uint32; pure (some (record s { max_name = v })))
    else if num == attr_space_avail
    then (do v ← Decoder.uint64; pure (some (record s { space_avail = v })))
    else if num == attr_space_free
    then (do v ← Decoder.uint64; pure (some (record s { space_free = v })))
    else if num == attr_space_total
    then (do v ← Decoder.uint64; pure (some (record s { space_total = v })))
    else pure none

pub data DecodedStatvfs : Type 0 where
  ok : Statvfs → DecodedStatvfs
  err : Error → DecodedStatvfs

unfoldable pub decode_stats : List ℕ → Statvfs → Get DecodedStatvfs
decode_stats [] s = pure (ok s)
decode_stats (num ∷ nums) s = do
  got ← decode_stat num s
  elim got [
    | none ↦ pure (err (unsupported num))
    | some s' ↦ (do
      e ← get_err
      elim e [ some x ↦ pure (err (decoding num x)) | none ↦ decode_stats nums s' ])
  ]

unfoldable pub decode_statvfs : Mask → Bytes → DecodedStatvfs
decode_statvfs mask vals = (decode_stats (set_attrs mask) (new_statvfs mask) (reader vals eof)).0
