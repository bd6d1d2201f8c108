-- ===== src/Nfs4/Args/WriteOps.antt =====
-- nfs4/writeops.go: the arguments of the NFSv4.0 operations that write.
use go_nfs_client.Prelude.{ℕ, ◌||◌, if◌then◌else◌, ◌==◌}
use go_nfs_client.Xdr.Io.{Bytes}
use go_nfs_client.Xdr.Encoder
use go_nfs_client.Xdr.Encoder.{Put, skip, ◌>>◌}
use go_nfs_client.Nfs4.Types.{Bitmap, encode_bitmap, Stateid, encode_stateid}
use go_nfs_client.Nfs4.Opnums.{
  op_open_confirm, op_write, op_commit, op_close, op_remove, op_rename, op_link, op_setattr,
  op_savefh, op_restorefh, op_open, op_create,
}

abbrev pub open4_no_create : ℕ
open4_no_create = 0

abbrev pub open4_create : ℕ
open4_create = 1

abbrev pub create_exclusive : ℕ
create_exclusive = 2

abbrev pub claim_null : ℕ
claim_null = 0

pub record OpenArgs : Type 0 where
  pub seqid : ℕ
  pub share_access : ℕ
  pub share_deny : ℕ
  pub client_id : ℕ
  pub owner : Bytes
  pub open_type : ℕ
  pub create_mode : ℕ
  pub create_attr_mask : Bitmap
  pub create_attr_vals : Bytes
  pub create_verf : Bytes
  pub name : Bytes

-- createhow4, where the file is to be created.
unfoldable pub encode_createhow : OpenArgs → Put
encode_createhow a = do
  Encoder.uint32 a.create_mode
  (if a.create_mode == create_exclusive
      then Encoder.fixed_opaque a.create_verf
      else (do encode_bitmap a.create_attr_mask; Encoder.opaque a.create_attr_vals))

unfoldable pub encode_open : OpenArgs → Put
encode_open a = do
  Encoder.uint32 op_open
  Encoder.uint32 a.seqid
  Encoder.uint32 a.share_access
  Encoder.uint32 a.share_deny
  Encoder.uint64 a.client_id
  Encoder.opaque a.owner
  Encoder.uint32 a.open_type
  (if a.open_type == open4_create then encode_createhow a else skip)
  Encoder.uint32 claim_null
  Encoder.string a.name

pub record OpenConfirmArgs : Type 0 where
  pub stateid : Stateid
  pub seqid : ℕ

unfoldable pub encode_open_confirm : OpenConfirmArgs → Put
encode_open_confirm a = do
  Encoder.uint32 op_open_confirm
  encode_stateid a.stateid
  Encoder.uint32 a.seqid

pub record WriteArgs : Type 0 where
  pub stateid : Stateid
  pub offset : ℕ
  pub stable : ℕ
  pub contents : Bytes

unfoldable pub encode_write : WriteArgs → Put
encode_write a = do
  Encoder.uint32 op_write
  encode_stateid a.stateid
  Encoder.uint64 a.offset
  Encoder.uint32 a.stable
  Encoder.opaque a.contents

pub record CommitArgs : Type 0 where
  pub offset : ℕ
  pub count : ℕ

unfoldable pub encode_commit : CommitArgs → Put
encode_commit a = do Encoder.uint32 op_commit; Encoder.uint64 a.offset; Encoder.uint32 a.count

pub record CloseArgs : Type 0 where
  pub seqid : ℕ
  pub stateid : Stateid

unfoldable pub encode_close : CloseArgs → Put
encode_close a = do Encoder.uint32 op_close; Encoder.uint32 a.seqid; encode_stateid a.stateid

pub record CreateArgs : Type 0 where
  pub ftype : ℕ
  pub link_data : Bytes
  pub obj_name : Bytes
  pub attr_mask : Bitmap
  pub attr_vals : Bytes

-- The arm of createtype4: a link's text, or the specdata4 of a device.
unfoldable pub encode_createtype : CreateArgs → Put
encode_createtype a =
    if a.ftype == 5
    then Encoder.string a.link_data
    else if (a.ftype == 3) || (a.ftype == 4)
    then (do Encoder.uint32 0; Encoder.uint32 0)
    else skip

unfoldable pub encode_create : CreateArgs → Put
encode_create a = do
  Encoder.uint32 op_create
  Encoder.uint32 a.ftype
  encode_createtype a
  Encoder.string a.obj_name
  encode_bitmap a.attr_mask
  Encoder.opaque a.attr_vals

pub record RemoveArgs : Type 0 where
  pub name : Bytes

unfoldable pub encode_remove : RemoveArgs → Put
encode_remove a = do Encoder.uint32 op_remove; Encoder.string a.name

pub record RenameArgs : Type 0 where
  pub old_name : Bytes
  pub new_name : Bytes

unfoldable pub encode_rename : RenameArgs → Put
encode_rename a = do Encoder.uint32 op_rename; Encoder.string a.old_name; Encoder.string a.new_name

pub record LinkArgs : Type 0 where
  pub new_name : Bytes

unfoldable pub encode_link : LinkArgs → Put
encode_link a = do Encoder.uint32 op_link; Encoder.string a.new_name

pub record SetattrArgs : Type 0 where
  pub stateid : Stateid
  pub attr_mask : Bitmap
  pub attr_vals : Bytes

unfoldable pub encode_setattr : SetattrArgs → Put
encode_setattr a = do
  Encoder.uint32 op_setattr
  encode_stateid a.stateid
  encode_bitmap a.attr_mask
  Encoder.opaque a.attr_vals

unfoldable pub encode_savefh : Put
encode_savefh = Encoder.uint32 op_savefh

unfoldable pub encode_restorefh : Put
encode_restorefh = Encoder.uint32 op_restorefh
