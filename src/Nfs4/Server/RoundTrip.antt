-- ===== src/Nfs4/Server/RoundTrip.antt =====
-- Whole requests, as a server reads them.
use go_nfs_client.Prelude.{some}
use go_nfs_client.Xdr.Codec.{Codec}
use go_nfs_client.Nfs4.Args.{
  Arg, encode_arg, putrootfh_args, putfh_args, getfh_args, lookup_args, getattr_args,
  setclientid_args, setclientid_confirm_args, read_args, readdir_args, readlink_args, renew_args,
  open_args, open_confirm_args, write_args, commit_args, close_args, create_args, remove_args,
  rename_args, link_args, setattr_args, savefh_args, restorefh_args, exchange_id_args,
  create_session_args, destroy_session_args, destroy_client_id_args, reclaim_complete_args,
  sequence_args,
}
use go_nfs_client.Nfs4.Server.{read_arg, FitsArg}
use go_nfs_client.Nfs4.Server.Ops.{
  putrootfh-Codec, putfh-Codec, getfh-Codec, lookup-Codec, getattr-Codec, setclientid-Codec,
  setclientid_confirm-Codec, read-Codec, readdir-Codec, readlink-Codec, renew-Codec,
}
use go_nfs_client.Nfs4.Server.WriteOps.{
  open_confirm-Codec, write-Codec, commit-Codec, close-Codec, remove-Codec, rename-Codec,
  link-Codec, setattr-Codec, savefh-Codec, restorefh-Codec, open-Codec, create-Codec, sent_open,
  sent_create,
}
use go_nfs_client.Nfs4.Server.SessionOps.{
  exchange_id-Codec, create_session-Codec, destroy_session-Codec, destroy_client_id-Codec,
  reclaim_complete-Codec, sequence-Codec,
}

-- What a server can read of an operation.
abbrev pub sent : Arg → Arg
sent putrootfh_args = putrootfh_args
sent (putfh_args a) = putfh_args a
sent getfh_args = getfh_args
sent (lookup_args a) = lookup_args a
sent (getattr_args a) = getattr_args a
sent (setclientid_args a) = setclientid_args a
sent (setclientid_confirm_args a) = setclientid_confirm_args a
sent (read_args a) = read_args a
sent (readdir_args a) = readdir_args a
sent readlink_args = readlink_args
sent (renew_args a) = renew_args a
sent (open_args a) = open_args (sent_open a)
sent (open_confirm_args a) = open_confirm_args a
sent (write_args a) = write_args a
sent (commit_args a) = commit_args a
sent (close_args a) = close_args a
sent (create_args a) = create_args (sent_create a)
sent (remove_args a) = remove_args a
sent (rename_args a) = rename_args a
sent (link_args a) = link_args a
sent (setattr_args a) = setattr_args a
sent savefh_args = savefh_args
sent restorefh_args = restorefh_args
sent (exchange_id_args a) = exchange_id_args a
sent (create_session_args a) = create_session_args a
sent (destroy_session_args a) = destroy_session_args a
sent (destroy_client_id_args a) = destroy_client_id_args a
sent (reclaim_complete_args a) = reclaim_complete_args a
sent (sequence_args a) = sequence_args a

pub arg-Codec : (a : Arg) → FitsArg a → Codec (encode_arg a) read_arg (some (sent a))
unfolding encode_arg
arg-Codec putrootfh_args h = putrootfh-Codec
arg-Codec (putfh_args a) h = putfh-Codec a h
arg-Codec getfh_args h = getfh-Codec
arg-Codec (lookup_args a) h = lookup-Codec a h
arg-Codec (getattr_args a) h = getattr-Codec a h
arg-Codec (setclientid_args a) h = setclientid-Codec a h
arg-Codec (setclientid_confirm_args a) h = setclientid_confirm-Codec a h
arg-Codec (read_args a) h = read-Codec a h
arg-Codec (readdir_args a) h = readdir-Codec a h
arg-Codec readlink_args h = readlink-Codec
arg-Codec (renew_args a) h = renew-Codec a h
arg-Codec (open_args a) h = open-Codec a h
arg-Codec (open_confirm_args a) h = open_confirm-Codec a h
arg-Codec (write_args a) h = write-Codec a h
arg-Codec (commit_args a) h = commit-Codec a h
arg-Codec (close_args a) h = close-Codec a h
arg-Codec (create_args a) h = create-Codec a h
arg-Codec (remove_args a) h = remove-Codec a h
arg-Codec (rename_args a) h = rename-Codec a h
arg-Codec (link_args a) h = link-Codec a h
arg-Codec (setattr_args a) h = setattr-Codec a h
arg-Codec savefh_args h = savefh-Codec
arg-Codec restorefh_args h = restorefh-Codec
arg-Codec (exchange_id_args a) h = exchange_id-Codec a h
arg-Codec (create_session_args a) h = create_session-Codec a h
arg-Codec (destroy_session_args a) h = destroy_session-Codec a h
arg-Codec (destroy_client_id_args a) h = destroy_client_id-Codec a h
arg-Codec (reclaim_complete_args a) h = reclaim_complete-Codec a h
arg-Codec (sequence_args a) h = sequence-Codec a h
