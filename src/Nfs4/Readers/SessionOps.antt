-- ===== src/Nfs4/Readers/SessionOps.antt =====
-- nfs_argop4: the operations of nfs4/sessionops.go.
use go_nfs_client.Prelude.{Option, some, none, if◌then◌else◌, ◌==◌}
use go_nfs_client.Prelude.Int.{pos}
use go_nfs_client.Xdr.Decoder
use go_nfs_client.Xdr.Decoder.{Get, pure, times, ◌>>=◌}
use go_nfs_client.Nfs4.Args.{
  Arg, decode_channel_attrs, exchange_id_args, create_session_args, destroy_session_args,
  destroy_client_id_args, reclaim_complete_args, sequence_args,
}

unfoldable pub read_exchange_id : Get (Option Arg)
read_exchange_id = do
  verifier ← Decoder.fixed_opaque (pos 8)
  owner_id ← Decoder.opaque
  flags ← Decoder.uint32
  state_protect ← Decoder.uint32
  client_impl_id ← Decoder.uint32
  pure (
      if client_impl_id == 0
      then (if state_protect == 0
          then (some (
              exchange_id_args
                (record { verifier = verifier; owner_id = owner_id; flags = flags })))
          else none)
      else none)

unfoldable pub read_create_session : Get (Option Arg)
read_create_session = do
  client_id ← Decoder.uint64
  sequence_id ← Decoder.uint32
  flags ← Decoder.uint32
  fore_chan ← decode_channel_attrs
  back_chan ← decode_channel_attrs
  cb_program ← Decoder.uint32
  sec_parms ← Decoder.uint32
  pure (
      if sec_parms == 0
      then (some (
          create_session_args (record {
            client_id = client_id;
            sequence_id = sequence_id;
            flags = flags;
            fore_chan = fore_chan;
            back_chan = back_chan;
            cb_program = cb_program;
          })))
      else none)

unfoldable pub read_destroy_session : Get (Option Arg)
read_destroy_session = do
  session_id ← Decoder.fixed_opaque (pos 16)
  pure (some (destroy_session_args (record { session_id = session_id })))

unfoldable pub read_destroy_client_id : Get (Option Arg)
read_destroy_client_id = do
  client_id ← Decoder.uint64
  pure (some (destroy_client_id_args (record { client_id = client_id })))

unfoldable pub read_reclaim_complete : Get (Option Arg)
read_reclaim_complete = do
  one_fs ← Decoder.bool
  pure (some (reclaim_complete_args (record { one_fs = one_fs })))

unfoldable pub read_sequence : Get (Option Arg)
read_sequence = do
  session_id ← Decoder.fixed_opaque (pos 16)
  sequence_id ← Decoder.uint32
  slot_id ← Decoder.uint32
  highest_slot_id ← Decoder.uint32
  cache_this ← Decoder.bool
  pure (
      some (
        sequence_args (record {
          session_id = session_id;
          sequence_id = sequence_id;
          slot_id = slot_id;
          highest_slot_id = highest_slot_id;
          cache_this = cache_this;
        })))
