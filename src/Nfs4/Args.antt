-- ===== src/Nfs4/Args.antt =====
-- The operations as one type, in place of Go's interface Arg.
pub mod Ops
pub mod WriteOps
pub mod SessionOps
unfoldable pub use Ops.*
unfoldable pub use WriteOps.*
unfoldable pub use SessionOps.*
use go_nfs_client.Xdr.Encoder.{Put}

-- The types that implement Arg.
pub data Arg : Type 0 where
  putrootfh_args : Arg
  putfh_args : PutfhArgs → Arg
  getfh_args : Arg
  lookup_args : LookupArgs → Arg
  getattr_args : GetattrArgs → Arg
  setclientid_args : SetclientidArgs → Arg
  setclientid_confirm_args : SetclientidConfirmArgs → Arg
  read_args : ReadArgs → Arg
  readdir_args : ReaddirArgs → Arg
  readlink_args : Arg
  renew_args : RenewArgs → Arg
  open_args : OpenArgs → Arg
  open_confirm_args : OpenConfirmArgs → Arg
  write_args : WriteArgs → Arg
  commit_args : CommitArgs → Arg
  close_args : CloseArgs → Arg
  create_args : CreateArgs → Arg
  remove_args : RemoveArgs → Arg
  rename_args : RenameArgs → Arg
  link_args : LinkArgs → Arg
  setattr_args : SetattrArgs → Arg
  savefh_args : Arg
  restorefh_args : Arg
  exchange_id_args : ExchangeIdArgs → Arg
  create_session_args : CreateSessionArgs → Arg
  destroy_session_args : DestroySessionArgs → Arg
  destroy_client_id_args : DestroyClientIdArgs → Arg
  reclaim_complete_args : ReclaimCompleteArgs → Arg
  sequence_args : SequenceArgs → Arg

-- `op.EncodeArg(e)`
unfoldable pub encode_arg : Arg → Put
encode_arg putrootfh_args = encode_putrootfh
encode_arg (putfh_args a) = encode_putfh a
encode_arg getfh_args = encode_getfh
encode_arg (lookup_args a) = encode_lookup a
encode_arg (getattr_args a) = encode_getattr a
encode_arg (setclientid_args a) = encode_setclientid a
encode_arg (setclientid_confirm_args a) = encode_setclientid_confirm a
encode_arg (read_args a) = encode_read a
encode_arg (readdir_args a) = encode_readdir a
encode_arg readlink_args = encode_readlink
encode_arg (renew_args a) = encode_renew a
encode_arg (open_args a) = encode_open a
encode_arg (open_confirm_args a) = encode_open_confirm a
encode_arg (write_args a) = encode_write a
encode_arg (commit_args a) = encode_commit a
encode_arg (close_args a) = encode_close a
encode_arg (create_args a) = encode_create a
encode_arg (remove_args a) = encode_remove a
encode_arg (rename_args a) = encode_rename a
encode_arg (link_args a) = encode_link a
encode_arg (setattr_args a) = encode_setattr a
encode_arg savefh_args = encode_savefh
encode_arg restorefh_args = encode_restorefh
encode_arg (exchange_id_args a) = encode_exchange_id a
encode_arg (create_session_args a) = encode_create_session a
encode_arg (destroy_session_args a) = encode_destroy_session a
encode_arg (destroy_client_id_args a) = encode_destroy_client_id a
encode_arg (reclaim_complete_args a) = encode_reclaim_complete a
encode_arg (sequence_args a) = encode_sequence a
