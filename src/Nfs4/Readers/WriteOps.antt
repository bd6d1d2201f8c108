-- ===== src/Nfs4/Readers/WriteOps.antt =====
-- nfs_argop4: the operations of nfs4/writeops.go.
use go_nfs_client.Prelude.{ℕ, Option, some, none, [], if◌then◌else◌, ◌==◌, ◌||◌}
use go_nfs_client.Prelude.Int.{pos}
use go_nfs_client.Xdr.Io.{Bytes}
use go_nfs_client.Xdr.Decoder
use go_nfs_client.Xdr.Decoder.{Get, pure, times, ◌>>=◌}
use go_nfs_client.Nfs4.Types.{Bitmap, decode_bitmap, decode_stateid}
use go_nfs_client.Nfs4.Args.{
  Arg, open4_create, create_exclusive, claim_null, open_args, open_confirm_args, write_args,
  commit_args, close_args, create_args, remove_args, rename_args, link_args, setattr_args,
}

unfoldable pub read_open_confirm : Get (Option Arg)
read_open_confirm = do
  stateid ← decode_stateid
  seqid ← Decoder.uint32
  pure (some (open_confirm_args (record { stateid = stateid; seqid = seqid })))

unfoldable pub read_write : Get (Option Arg)
read_write = do
  stateid ← decode_stateid
  offset ← Decoder.uint64
  stable ← Decoder.uint32
  contents ← Decoder.opaque
  pure (
      some (
        write_args
          (record { stateid = stateid; offset = offset; stable = stable; contents = contents })))

unfoldable pub read_commit : Get (Option Arg)
read_commit = do
  offset ← Decoder.uint64
  count ← Decoder.uint32
  pure (some (commit_args (record { offset = offset; count = count })))

unfoldable pub read_close : Get (Option Arg)
read_close = do
  seqid ← Decoder.uint32
  stateid ← decode_stateid
  pure (some (close_args (record { seqid = seqid; stateid = stateid })))

unfoldable pub read_remove : Get (Option Arg)
read_remove = do name ← Decoder.string; pure (some (remove_args (record { name = name })))

unfoldable pub read_rename : Get (Option Arg)
read_rename = do
  old_name ← Decoder.string
  new_name ← Decoder.string
  pure (some (rename_args (record { old_name = old_name; new_name = new_name })))

unfoldable pub read_link : Get (Option Arg)
read_link = do new_name ← Decoder.string; pure (some (link_args (record { new_name = new_name })))

unfoldable pub read_setattr : Get (Option Arg)
read_setattr = do
  stateid ← decode_stateid
  attr_mask ← decode_bitmap
  attr_vals ← Decoder.opaque
  pure (
      some
        (setattr_args (record { stateid = stateid; attr_mask = attr_mask; attr_vals = attr_vals })))

-- createhow4: the mode, and a verifier or attributes.
unfoldable pub read_createhow : Get (ℕ × Bytes × Bitmap × Bytes)
read_createhow = do
  mode ← Decoder.uint32
  if mode == create_exclusive
      then (do v ← Decoder.fixed_opaque (pos 8); pure (mode, v, [], []))
      else (do m ← decode_bitmap; p ← Decoder.opaque; pure (mode, [], m, p))

unfoldable pub read_open : Get (Option Arg)
read_open = do
  seqid ← Decoder.uint32
  share_access ← Decoder.uint32
  share_deny ← Decoder.uint32
  client_id ← Decoder.uint64
  owner ← Decoder.opaque
  open_type ← Decoder.uint32
  how ← (if open_type == open4_create then read_createhow else pure (0, [], [], []))
  claim ← Decoder.uint32
  name ← Decoder.string
  pure (
      if claim == claim_null
      then some (
          open_args (record {
            seqid = seqid;
            share_access = share_access;
            share_deny = share_deny;
            client_id = client_id;
            owner = owner;
            open_type = open_type;
            create_mode = how.0;
            create_verf = how.1;
            create_attr_mask = how.2;
            create_attr_vals = how.3;
            name = name;
          }))
      else none)

unfoldable pub read_create : Get (Option Arg)
read_create = do
  ftype ← Decoder.uint32
  link_data ←
      (if ftype == 5
        then Decoder.string
        else if (ftype == 3) || (ftype == 4)
        then (do _ ← Decoder.uint32; _ ← Decoder.uint32; pure [])
        else pure [])
  obj_name ← Decoder.string
  attr_mask ← decode_bitmap
  attr_vals ← Decoder.opaque
  pure (
      some (
        create_args (record {
          ftype = ftype;
          link_data = link_data;
          obj_name = obj_name;
          attr_mask = attr_mask;
          attr_vals = attr_vals;
        })))
