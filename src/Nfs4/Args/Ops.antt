-- ===== src/Nfs4/Args/Ops.antt =====
-- nfs4/ops.go: the arguments of the NFSv4.0 operations that read.
use go_nfs_client.Prelude.{ℕ}
use go_nfs_client.Xdr.Io.{Bytes}
use go_nfs_client.Xdr.Encoder
use go_nfs_client.Xdr.Encoder.{Put, skip, ◌>>◌}
use go_nfs_client.Nfs4.Types.{Bitmap, encode_bitmap, Stateid, encode_stateid}
use go_nfs_client.Nfs4.Opnums.{
  op_putrootfh, op_putfh, op_getfh, op_lookup, op_getattr, op_setclientid, op_setclientid_confirm,
  op_read, op_readdir, op_readlink, op_renew,
}

unfoldable pub encode_putrootfh : Put
encode_putrootfh = Encoder.uint32 op_putrootfh

pub record PutfhArgs : Type 0 where
  pub fh : Bytes

unfoldable pub encode_putfh : PutfhArgs → Put
encode_putfh a = do Encoder.uint32 op_putfh; Encoder.opaque a.fh

unfoldable pub encode_getfh : Put
encode_getfh = Encoder.uint32 op_getfh

pub record LookupArgs : Type 0 where
  pub name : Bytes

unfoldable pub encode_lookup : LookupArgs → Put
encode_lookup a = do Encoder.uint32 op_lookup; Encoder.string a.name

pub record GetattrArgs : Type 0 where
  pub attr_request : Bitmap

unfoldable pub encode_getattr : GetattrArgs → Put
encode_getattr a = do Encoder.uint32 op_getattr; encode_bitmap a.attr_request

pub record SetclientidArgs : Type 0 where
  pub verifier : Bytes
  pub id : Bytes
  pub callback_prog : ℕ
  pub callback_net_id : Bytes
  pub callback_addr : Bytes
  pub callback_ident : ℕ

unfoldable pub encode_setclientid : SetclientidArgs → Put
encode_setclientid a = do
  Encoder.uint32 op_setclientid
  Encoder.fixed_opaque a.verifier
  Encoder.opaque a.id
  Encoder.uint32 a.callback_prog
  Encoder.string a.callback_net_id
  Encoder.string a.callback_addr
  Encoder.uint32 a.callback_ident

pub record SetclientidConfirmArgs : Type 0 where
  pub client_id : ℕ
  pub verifier : Bytes

unfoldable pub encode_setclientid_confirm : SetclientidConfirmArgs → Put
encode_setclientid_confirm a = do
  Encoder.uint32 op_setclientid_confirm
  Encoder.uint64 a.client_id
  Encoder.fixed_opaque a.verifier

pub record ReadArgs : Type 0 where
  pub stateid : Stateid
  pub offset : ℕ
  pub count : ℕ

unfoldable pub encode_read : ReadArgs → Put
encode_read a = do
  Encoder.uint32 op_read
  encode_stateid a.stateid
  Encoder.uint64 a.offset
  Encoder.uint32 a.count

pub record ReaddirArgs : Type 0 where
  pub cookie : ℕ
  pub cookieverf : Bytes
  pub dircount : ℕ
  pub maxcount : ℕ
  pub attr_request : Bitmap

unfoldable pub encode_readdir : ReaddirArgs → Put
encode_readdir a = do
  Encoder.uint32 op_readdir
  Encoder.uint64 a.cookie
  Encoder.fixed_opaque a.cookieverf
  Encoder.uint32 a.dircount
  Encoder.uint32 a.maxcount
  encode_bitmap a.attr_request

unfoldable pub encode_readlink : Put
encode_readlink = Encoder.uint32 op_readlink

pub record RenewArgs : Type 0 where
  pub client_id : ℕ

unfoldable pub encode_renew : RenewArgs → Put
encode_renew a = do Encoder.uint32 op_renew; Encoder.uint64 a.client_id
