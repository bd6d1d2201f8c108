-- ===== src/Nfs4/Server/SessionOps.antt =====
-- The operations of nfs4/sessionops.go, as a server reads them.
use go_nfs_client.Prelude.{refl, Option, some, none, [], if◌then◌else◌, ◌==◌, arith}
use go_nfs_client.Xdr.Decoder
use go_nfs_client.Xdr.Decoder.{Get, pure, times, ◌>>=◌}
use go_nfs_client.Xdr.Codec.{Codec, Reads, Codec-then, Codec-map, Codec-end}
use go_nfs_client.Xdr.RoundTrip.{uint32-Codec, uint64-Codec, opaque-Codec, bool-Codec}
use go_nfs_client.Nfs4.Types.{Array-Codec}
use go_nfs_client.Nfs4.Opnums.{
  op_exchange_id, op_create_session, op_destroy_session, op_destroy_client_id, op_reclaim_complete,
  op_sequence,
}
use go_nfs_client.Nfs4.Args.{
  Arg, ChannelAttrs, encode_channel_attrs, decode_channel_attrs, exchange_id_args,
  create_session_args, destroy_session_args, destroy_client_id_args, reclaim_complete_args,
  sequence_args, encode_exchange_id, encode_create_session, encode_destroy_session,
  encode_destroy_client_id, encode_reclaim_complete, encode_sequence, ExchangeIdArgs,
  CreateSessionArgs, DestroySessionArgs, DestroyClientIdArgs, ReclaimCompleteArgs, SequenceArgs,
}
use go_nfs_client.Nfs4.Server.{read_arg, read_body, FitsArg, FitsChannelAttrs}
use go_nfs_client.Nfs4.Readers.{
  read_exchange_id, read_create_session, read_destroy_session, read_destroy_client_id,
  read_reclaim_complete, read_sequence,
}

no_elements : (c : ChannelAttrs) → Reads (times 0 Decoder.uint32 >>= λ _. pure c) [] c
unfolding times pure ◌>>=◌
no_elements c ending rest = refl

pub channel_attrs-Codec :
    (c : ChannelAttrs) → FitsChannelAttrs c → Codec (encode_channel_attrs c) decode_channel_attrs c
unfolding encode_channel_attrs decode_channel_attrs
channel_attrs-Codec c h = Codec-then _ (uint32-Codec c.header_pad_size h.header_pad_size_fits) (
    Codec-then _ (uint32-Codec c.max_request_size h.max_request_size_fits) (
      Codec-then _ (uint32-Codec c.max_response_size h.max_response_size_fits) (
        Codec-then _ (uint32-Codec c.max_response_size_cach h.max_response_size_cach_fits) (
          Codec-then _ (uint32-Codec c.max_operations h.max_operations_fits) (
            Codec-then _ (uint32-Codec c.max_requests h.max_requests_fits)
              (Codec-end _ (uint32-Codec 0 (omega arith)) (no_elements c)))))))

pub exchange_id-Codec :
    (a : ExchangeIdArgs)
    → FitsArg (exchange_id_args a)
    → Codec (encode_exchange_id a) read_arg (some (exchange_id_args a))
unfolding encode_exchange_id read_arg read_body read_exchange_id
exchange_id-Codec a h = Codec-then _ (uint32-Codec op_exchange_id (omega arith)) (
    Codec-then _ (Array-Codec 8 a.verifier h.0) (
      Codec-then _ (opaque-Codec a.owner_id h.1) (
        Codec-then _ (uint32-Codec a.flags h.2) (
          Codec-then _ (uint32-Codec 0 (omega arith)) (
            Codec-map {B = Option Arg}
              (λ client_impl_id.
                if client_impl_id == 0
                then some (
                    exchange_id_args
                      (record { verifier = a.verifier; owner_id = a.owner_id; flags = a.flags }))
                else none)
              (uint32-Codec 0 (omega arith)))))))

pub create_session-Codec :
    (a : CreateSessionArgs)
    → FitsArg (create_session_args a)
    → Codec (encode_create_session a) read_arg (some (create_session_args a))
unfolding encode_create_session read_arg read_body read_create_session
create_session-Codec a h = Codec-then _ (uint32-Codec op_create_session (omega arith)) (
    Codec-then _ (uint64-Codec a.client_id h.0) (
      Codec-then _ (uint32-Codec a.sequence_id h.1) (
        Codec-then _ (uint32-Codec a.flags h.2) (
          Codec-then _ (channel_attrs-Codec a.fore_chan h.3) (
            Codec-then _ (channel_attrs-Codec a.back_chan h.4) (
              Codec-then _ (uint32-Codec a.cb_program h.5) (
                Codec-map {B = Option Arg}
                  (λ sec_parms.
                    if sec_parms == 0
                    then some (
                        create_session_args (record {
                          client_id = a.client_id;
                          sequence_id = a.sequence_id;
                          flags = a.flags;
                          fore_chan = a.fore_chan;
                          back_chan = a.back_chan;
                          cb_program = a.cb_program;
                        }))
                    else none)
                  (uint32-Codec 0 (omega arith)))))))))

pub destroy_session-Codec :
    (a : DestroySessionArgs)
    → FitsArg (destroy_session_args a)
    → Codec (encode_destroy_session a) read_arg (some (destroy_session_args a))
unfolding encode_destroy_session read_arg read_body read_destroy_session
destroy_session-Codec a h = Codec-then _ (uint32-Codec op_destroy_session (omega arith)) (
    Codec-map {B = Option Arg}
      (λ session_id. some (destroy_session_args (record { session_id = session_id })))
      (Array-Codec 16 a.session_id h))

pub destroy_client_id-Codec :
    (a : DestroyClientIdArgs)
    → FitsArg (destroy_client_id_args a)
    → Codec (encode_destroy_client_id a) read_arg (some (destroy_client_id_args a))
unfolding encode_destroy_client_id read_arg read_body read_destroy_client_id
destroy_client_id-Codec a h = Codec-then _ (uint32-Codec op_destroy_client_id (omega arith)) (
    Codec-map {B = Option Arg}
      (λ client_id. some (destroy_client_id_args (record { client_id = client_id })))
      (uint64-Codec a.client_id h))

pub reclaim_complete-Codec :
    (a : ReclaimCompleteArgs)
    → FitsArg (reclaim_complete_args a)
    → Codec (encode_reclaim_complete a) read_arg (some (reclaim_complete_args a))
unfolding encode_reclaim_complete read_arg read_body read_reclaim_complete
reclaim_complete-Codec a h = Codec-then _ (uint32-Codec op_reclaim_complete (omega arith)) (
    Codec-map {B = Option Arg} (λ one_fs. some (reclaim_complete_args (record { one_fs = one_fs })))
      (bool-Codec a.one_fs))

pub sequence-Codec :
    (a : SequenceArgs)
    → FitsArg (sequence_args a)
    → Codec (encode_sequence a) read_arg (some (sequence_args a))
unfolding encode_sequence read_arg read_body read_sequence
sequence-Codec a h = Codec-then _ (uint32-Codec op_sequence (omega arith)) (
    Codec-then _ (Array-Codec 16 a.session_id h.0) (
      Codec-then _ (uint32-Codec a.sequence_id h.1) (
        Codec-then _ (uint32-Codec a.slot_id h.2) (
          Codec-then _ (uint32-Codec a.highest_slot_id h.3) (
            Codec-map {B = Option Arg}
              (λ cache_this. some (
                sequence_args (record {
                  session_id = a.session_id;
                  sequence_id = a.sequence_id;
                  slot_id = a.slot_id;
                  highest_slot_id = a.highest_slot_id;
                  cache_this = cache_this;
                })))
              (bool-Codec a.cache_this))))))
