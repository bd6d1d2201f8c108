-- ===== src/Nfs4/Server.antt =====
-- nfs_argop4 as RFC 7530 and RFC 8881 lay it out: how a server reads an operation.
pub mod Ops
pub mod WriteOps
pub mod SessionOps
pub mod RoundTrip
use go_nfs_client.Prelude.{
  ℕ, ◌^◌, ◌<◌, ◌≤◌, ◌%◌, ◌≡◌, refl, true, false, Option, some, none, [], ◌∷◌, List, length,
  if◌then◌else◌, ◌==◌, ◌||◌, arith, All,
}
use go_nfs_client.Prelude.Int.{pos}
use go_nfs_client.Xdr.Io.{Bytes, IoError}
use go_nfs_client.Xdr.Encoder
use go_nfs_client.Xdr.Encoder.{each, skip, ◌>>◌}
use go_nfs_client.Xdr.Decoder
use go_nfs_client.Xdr.Decoder.{Get, pure, times, ◌>>=◌}
use go_nfs_client.Xdr.Codec.{
  Codec, Reads, Codec-then, Codec-map, Codec-end, Codec-pure, Codec-each, Codec-decodes, reader,
  written,
}
use go_nfs_client.Xdr.RoundTrip.{uint32-Codec, uint64-Codec, opaque-Codec, string-Codec, bool-Codec}
use go_nfs_client.Nfs4.Types.{
  Bitmap, decode_bitmap, Stateid, decode_stateid, U32, U64, Small, Array, FitsBitmap, FitsStateid,
  bitmap-Codec, stateid-Codec, Array-Codec, if-Codec,
}
use go_nfs_client.Nfs4.Opnums.{
  op_putrootfh, op_putfh, op_getfh, op_lookup, op_getattr, op_setclientid, op_setclientid_confirm,
  op_read, op_readdir, op_readlink, op_renew, op_open, op_open_confirm, op_write, op_commit,
  op_close, op_create, op_remove, op_rename, op_link, op_setattr, op_savefh, op_restorefh,
  op_exchange_id, op_create_session, op_destroy_session, op_destroy_client_id, op_reclaim_complete,
  op_sequence,
}
use go_nfs_client.Nfs4.Args
use go_nfs_client.Nfs4.Args.{
  Arg, ChannelAttrs, encode_channel_attrs, decode_channel_attrs, encode_arg, encode_createhow,
  encode_createtype, open4_create, create_exclusive, claim_null, putrootfh_args, putfh_args,
  getfh_args, lookup_args, getattr_args, setclientid_args, setclientid_confirm_args, read_args,
  readdir_args, readlink_args, renew_args, open_args, open_confirm_args, write_args, commit_args,
  close_args, create_args, remove_args, rename_args, link_args, setattr_args, savefh_args,
  restorefh_args, exchange_id_args, create_session_args, destroy_session_args,
  destroy_client_id_args, reclaim_complete_args, sequence_args, encode_putrootfh, encode_putfh,
  encode_getfh, encode_lookup, encode_getattr, encode_setclientid, encode_setclientid_confirm,
  encode_read, encode_readdir, encode_readlink, encode_renew, encode_open, encode_open_confirm,
  encode_write, encode_commit, encode_close, encode_create, encode_remove, encode_rename,
  encode_link, encode_setattr, encode_savefh, encode_restorefh, encode_exchange_id,
  encode_create_session, encode_destroy_session, encode_destroy_client_id, encode_reclaim_complete,
  encode_sequence, PutfhArgs, LookupArgs, GetattrArgs, SetclientidArgs, SetclientidConfirmArgs,
  ReadArgs, ReaddirArgs, RenewArgs, OpenArgs, OpenConfirmArgs, WriteArgs, CommitArgs, CloseArgs,
  CreateArgs, RemoveArgs, RenameArgs, LinkArgs, SetattrArgs, ExchangeIdArgs, CreateSessionArgs,
  DestroySessionArgs, DestroyClientIdArgs, ReclaimCompleteArgs, SequenceArgs,
}
use go_nfs_client.Nfs4.Readers.{
  read_createhow, read_putfh, read_lookup, read_getattr, read_setclientid, read_setclientid_confirm,
  read_read, read_readdir, read_renew, read_open, read_open_confirm, read_write, read_commit,
  read_close, read_create, read_remove, read_rename, read_link, read_setattr, read_exchange_id,
  read_create_session, read_destroy_session, read_destroy_client_id, read_reclaim_complete,
  read_sequence,
}

-- An operation that the client never sends reads as none.
unfoldable pub read_body : ℕ → Get (Option Arg)
read_body op =
    if op == op_putrootfh
    then pure (some putrootfh_args)
    else if op == op_putfh
    then read_putfh
    else if op == op_getfh
    then pure (some getfh_args)
    else if op == op_lookup
    then read_lookup
    else if op == op_getattr
    then read_getattr
    else if op == op_setclientid
    then read_setclientid
    else if op == op_setclientid_confirm
    then read_setclientid_confirm
    else if op == op_read
    then read_read
    else if op == op_readdir
    then read_readdir
    else if op == op_readlink
    then pure (some readlink_args)
    else if op == op_renew
    then read_renew
    else if op == op_open
    then read_open
    else if op == op_open_confirm
    then read_open_confirm
    else if op == op_write
    then read_write
    else if op == op_commit
    then read_commit
    else if op == op_close
    then read_close
    else if op == op_create
    then read_create
    else if op == op_remove
    then read_remove
    else if op == op_rename
    then read_rename
    else if op == op_link
    then read_link
    else if op == op_setattr
    then read_setattr
    else if op == op_savefh
    then pure (some savefh_args)
    else if op == op_restorefh
    then pure (some restorefh_args)
    else if op == op_exchange_id
    then read_exchange_id
    else if op == op_create_session
    then read_create_session
    else if op == op_destroy_session
    then read_destroy_session
    else if op == op_destroy_client_id
    then read_destroy_client_id
    else if op == op_reclaim_complete
    then read_reclaim_complete
    else if op == op_sequence
    then read_sequence
    else pure none

unfoldable pub read_arg : Get (Option Arg)
read_arg = do op ← Decoder.uint32; read_body op

pub record FitsChannelAttrs (c : ChannelAttrs) : Type 0 where
  pub header_pad_size_fits : U32 c.header_pad_size
  pub max_request_size_fits : U32 c.max_request_size
  pub max_response_size_fits : U32 c.max_response_size
  pub max_response_size_cach_fits : U32 c.max_response_size_cach
  pub max_operations_fits : U32 c.max_operations
  pub max_requests_fits : U32 c.max_requests

pub record FitsOpen (a : OpenArgs) : Type 0 where
  pub seqid_fits : U32 a.seqid
  pub access_fits : U32 a.share_access
  pub deny_fits : U32 a.share_deny
  pub client_id_fits : U64 a.client_id
  pub owner_fits : Small a.owner
  pub type_fits : U32 a.open_type
  pub mode_fits : U32 a.create_mode
  pub mask_fits : FitsBitmap a.create_attr_mask
  pub vals_fit : Small a.create_attr_vals
  pub verf_fits : Array 8 a.create_verf
  pub name_fits : Small a.name

-- The fields that the Go types and the limit of the decoder bound.
abbrev pub FitsArg : Arg → Type 0
FitsArg putrootfh_args = Unit
FitsArg (putfh_args a) = Small a.fh
FitsArg getfh_args = Unit
FitsArg (lookup_args a) = Small a.name
FitsArg (getattr_args a) = FitsBitmap a.attr_request
FitsArg (setclientid_args a) =
    Array 8 a.verifier
    × Small a.id
    × U32 a.callback_prog
    × Small a.callback_net_id
    × Small a.callback_addr
    × U32 a.callback_ident
FitsArg (setclientid_confirm_args a) = U64 a.client_id × Array 8 a.verifier
FitsArg (read_args a) = FitsStateid a.stateid × U64 a.offset × U32 a.count
FitsArg (readdir_args a) =
    U64 a.cookie
    × Array 8 a.cookieverf
    × U32 a.dircount
    × U32 a.maxcount
    × FitsBitmap a.attr_request
FitsArg readlink_args = Unit
FitsArg (renew_args a) = U64 a.client_id
FitsArg (open_confirm_args a) = FitsStateid a.stateid × U32 a.seqid
FitsArg (write_args a) = FitsStateid a.stateid × U64 a.offset × U32 a.stable × Small a.contents
FitsArg (commit_args a) = U64 a.offset × U32 a.count
FitsArg (close_args a) = U32 a.seqid × FitsStateid a.stateid
FitsArg (remove_args a) = Small a.name
FitsArg (rename_args a) = Small a.old_name × Small a.new_name
FitsArg (link_args a) = Small a.new_name
FitsArg (setattr_args a) = FitsStateid a.stateid × FitsBitmap a.attr_mask × Small a.attr_vals
FitsArg savefh_args = Unit
FitsArg restorefh_args = Unit
FitsArg (exchange_id_args a) = Array 8 a.verifier × Small a.owner_id × U32 a.flags
FitsArg (create_session_args a) =
    U64 a.client_id
    × U32 a.sequence_id
    × U32 a.flags
    × FitsChannelAttrs a.fore_chan
    × FitsChannelAttrs a.back_chan
    × U32 a.cb_program
FitsArg (destroy_session_args a) = Array 16 a.session_id
FitsArg (destroy_client_id_args a) = U64 a.client_id
FitsArg (reclaim_complete_args a) = Unit
FitsArg (sequence_args a) =
    Array 16 a.session_id × U32 a.sequence_id × U32 a.slot_id × U32 a.highest_slot_id
FitsArg (open_args a) = FitsOpen a
FitsArg (create_args a) =
    U32 a.ftype × Small a.link_data × Small a.obj_name × FitsBitmap a.attr_mask × Small a.attr_vals
