-- ===== src/Nfs4/Readers/Ops.antt =====
-- nfs_argop4: the operations of nfs4/ops.go.
use go_nfs_client.Prelude.{Option, some}
use go_nfs_client.Prelude.Int.{pos}
use go_nfs_client.Xdr.Decoder
use go_nfs_client.Xdr.Decoder.{Get, pure, times, ◌>>=◌}
use go_nfs_client.Nfs4.Types.{decode_bitmap, decode_stateid}
use go_nfs_client.Nfs4.Args.{
  Arg, putfh_args, lookup_args, getattr_args, setclientid_args, setclientid_confirm_args, read_args,
  readdir_args, renew_args,
}

unfoldable pub read_putfh : Get (Option Arg)
read_putfh = do fh ← Decoder.opaque; pure (some (putfh_args (record { fh = fh })))

unfoldable pub read_lookup : Get (Option Arg)
read_lookup = do name ← Decoder.string; pure (some (lookup_args (record { name = name })))

unfoldable pub read_getattr : Get (Option Arg)
read_getattr = do
  attr_request ← decode_bitmap
  pure (some (getattr_args (record { attr_request = attr_request })))

unfoldable pub read_setclientid : Get (Option Arg)
read_setclientid = do
  verifier ← Decoder.fixed_opaque (pos 8)
  id ← Decoder.opaque
  callback_prog ← Decoder.uint32
  callback_net_id ← Decoder.string
  callback_addr ← Decoder.string
  callback_ident ← Decoder.uint32
  pure (
      some (
        setclientid_args (record {
          verifier = verifier;
          id = id;
          callback_prog = callback_prog;
          callback_net_id = callback_net_id;
          callback_addr = callback_addr;
          callback_ident = callback_ident;
        })))

unfoldable pub read_setclientid_confirm : Get (Option Arg)
read_setclientid_confirm = do
  client_id ← Decoder.uint64
  verifier ← Decoder.fixed_opaque (pos 8)
  pure (some (setclientid_confirm_args (record { client_id = client_id; verifier = verifier })))

unfoldable pub read_read : Get (Option Arg)
read_read = do
  stateid ← decode_stateid
  offset ← Decoder.uint64
  count ← Decoder.uint32
  pure (some (read_args (record { stateid = stateid; offset = offset; count = count })))

unfoldable pub read_readdir : Get (Option Arg)
read_readdir = do
  cookie ← Decoder.uint64
  cookieverf ← Decoder.fixed_opaque (pos 8)
  dircount ← Decoder.uint32
  maxcount ← Decoder.uint32
  attr_request ← decode_bitmap
  pure (
      some (
        readdir_args (record {
          cookie = cookie;
          cookieverf = cookieverf;
          dircount = dircount;
          maxcount = maxcount;
          attr_request = attr_request;
        })))

unfoldable pub read_renew : Get (Option Arg)
read_renew = do
  client_id ← Decoder.uint64
  pure (some (renew_args (record { client_id = client_id })))
