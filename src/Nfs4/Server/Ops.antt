-- ===== src/Nfs4/Server/Ops.antt =====
-- The operations of nfs4/ops.go, as a server reads them.
use go_nfs_client.Prelude.{Option, some, arith}
use go_nfs_client.Xdr.Codec.{Codec, Codec-then, Codec-map, Codec-end}
use go_nfs_client.Xdr.RoundTrip.{uint32-Codec, uint64-Codec, opaque-Codec, string-Codec}
use go_nfs_client.Nfs4.Types.{bitmap-Codec, stateid-Codec, Array-Codec}
use go_nfs_client.Nfs4.Opnums.{
  op_putrootfh, op_putfh, op_getfh, op_lookup, op_getattr, op_setclientid, op_setclientid_confirm,
  op_read, op_readdir, op_readlink, op_renew,
}
use go_nfs_client.Nfs4.Args.{
  Arg, putrootfh_args, putfh_args, getfh_args, lookup_args, getattr_args, setclientid_args,
  setclientid_confirm_args, read_args, readdir_args, readlink_args, renew_args, encode_putrootfh,
  encode_putfh, encode_getfh, encode_lookup, encode_getattr, encode_setclientid,
  encode_setclientid_confirm, encode_read, encode_readdir, encode_readlink, encode_renew, PutfhArgs,
  LookupArgs, GetattrArgs, SetclientidArgs, SetclientidConfirmArgs, ReadArgs, ReaddirArgs,
  RenewArgs,
}
use go_nfs_client.Nfs4.Server.{read_arg, read_body, FitsArg}
use go_nfs_client.Nfs4.Readers.{
  read_putfh, read_lookup, read_getattr, read_setclientid, read_setclientid_confirm, read_read,
  read_readdir, read_renew,
}
use go_nfs_client.Nfs4.Types.{Reads-pure}

pub putrootfh-Codec : Codec encode_putrootfh read_arg (some putrootfh_args)
unfolding encode_putrootfh read_arg read_body
putrootfh-Codec = Codec-end _ (uint32-Codec op_putrootfh (omega arith)) (Reads-pure _)

pub putfh-Codec :
    (a : PutfhArgs) → FitsArg (putfh_args a) → Codec (encode_putfh a) read_arg (some (putfh_args a))
unfolding encode_putfh read_arg read_body read_putfh
putfh-Codec a h = Codec-then _ (uint32-Codec op_putfh (omega arith)) (
    Codec-map {B = Option Arg} (λ fh. some (putfh_args (record { fh = fh }))) (opaque-Codec a.fh h))

pub getfh-Codec : Codec encode_getfh read_arg (some getfh_args)
unfolding encode_getfh read_arg read_body
getfh-Codec = Codec-end _ (uint32-Codec op_getfh (omega arith)) (Reads-pure _)

pub lookup-Codec :
    (a : LookupArgs)
    → FitsArg (lookup_args a)
    → Codec (encode_lookup a) read_arg (some (lookup_args a))
unfolding encode_lookup read_arg read_body read_lookup
lookup-Codec a h = Codec-then _ (uint32-Codec op_lookup (omega arith)) (
    Codec-map {B = Option Arg} (λ name. some (lookup_args (record { name = name })))
      (string-Codec a.name h))

pub getattr-Codec :
    (a : GetattrArgs)
    → FitsArg (getattr_args a)
    → Codec (encode_getattr a) read_arg (some (getattr_args a))
unfolding encode_getattr read_arg read_body read_getattr
getattr-Codec a h = Codec-then _ (uint32-Codec op_getattr (omega arith)) (
    Codec-map {B = Option Arg}
      (λ attr_request. some (getattr_args (record { attr_request = attr_request })))
      (bitmap-Codec a.attr_request h))

pub setclientid-Codec :
    (a : SetclientidArgs)
    → FitsArg (setclientid_args a)
    → Codec (encode_setclientid a) read_arg (some (setclientid_args a))
unfolding encode_setclientid read_arg read_body read_setclientid
setclientid-Codec a h = Codec-then _ (uint32-Codec op_setclientid (omega arith)) (
    Codec-then _ (Array-Codec 8 a.verifier h.0) (
      Codec-then _ (opaque-Codec a.id h.1) (
        Codec-then _ (uint32-Codec a.callback_prog h.2) (
          Codec-then _ (string-Codec a.callback_net_id h.3) (
            Codec-then _ (string-Codec a.callback_addr h.4) (
              Codec-map {B = Option Arg}
                (λ callback_ident. some (
                  setclientid_args (record {
                    verifier = a.verifier;
                    id = a.id;
                    callback_prog = a.callback_prog;
                    callback_net_id = a.callback_net_id;
                    callback_addr = a.callback_addr;
                    callback_ident = callback_ident;
                  })))
                (uint32-Codec a.callback_ident h.5)))))))

pub setclientid_confirm-Codec :
    (a : SetclientidConfirmArgs)
    → FitsArg (setclientid_confirm_args a)
    → Codec (encode_setclientid_confirm a) read_arg (some (setclientid_confirm_args a))
unfolding encode_setclientid_confirm read_arg read_body read_setclientid_confirm
setclientid_confirm-Codec a h = Codec-then _ (uint32-Codec op_setclientid_confirm (omega arith)) (
    Codec-then _ (uint64-Codec a.client_id h.0) (
      Codec-map {B = Option Arg}
        (λ verifier.
          some (setclientid_confirm_args (record { client_id = a.client_id; verifier = verifier })))
        (Array-Codec 8 a.verifier h.1)))

pub read-Codec :
    (a : ReadArgs) → FitsArg (read_args a) → Codec (encode_read a) read_arg (some (read_args a))
unfolding encode_read read_arg read_body read_read
read-Codec a h = Codec-then _ (uint32-Codec op_read (omega arith)) (
    Codec-then _ (stateid-Codec a.stateid h.0) (
      Codec-then _ (uint64-Codec a.offset h.1) (
        Codec-map {B = Option Arg}
          (λ count.
            some (read_args (record { stateid = a.stateid; offset = a.offset; count = count })))
          (uint32-Codec a.count h.2))))

pub readdir-Codec :
    (a : ReaddirArgs)
    → FitsArg (readdir_args a)
    → Codec (encode_readdir a) read_arg (some (readdir_args a))
unfolding encode_readdir read_arg read_body read_readdir
readdir-Codec a h = Codec-then _ (uint32-Codec op_readdir (omega arith)) (
    Codec-then _ (uint64-Codec a.cookie h.0) (
      Codec-then _ (Array-Codec 8 a.cookieverf h.1) (
        Codec-then _ (uint32-Codec a.dircount h.2) (
          Codec-then _ (uint32-Codec a.maxcount h.3) (
            Codec-map {B = Option Arg}
              (λ attr_request. some (
                readdir_args (record {
                  cookie = a.cookie;
                  cookieverf = a.cookieverf;
                  dircount = a.dircount;
                  maxcount = a.maxcount;
                  attr_request = attr_request;
                })))
              (bitmap-Codec a.attr_request h.4))))))

pub readlink-Codec : Codec encode_readlink read_arg (some readlink_args)
unfolding encode_readlink read_arg read_body
readlink-Codec = Codec-end _ (uint32-Codec op_readlink (omega arith)) (Reads-pure _)

pub renew-Codec :
    (a : RenewArgs) → FitsArg (renew_args a) → Codec (encode_renew a) read_arg (some (renew_args a))
unfolding encode_renew read_arg read_body read_renew
renew-Codec a h = Codec-then _ (uint32-Codec op_renew (omega arith)) (
    Codec-map {B = Option Arg} (λ client_id. some (renew_args (record { client_id = client_id })))
      (uint64-Codec a.client_id h))
