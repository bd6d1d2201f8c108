-- ===== src/Nfs4/Args/SessionOps.antt =====
-- nfs4/sessionops.go: the arguments of the NFSv4.1 operations.
use go_nfs_client.Prelude.{ℕ, Bool}
use go_nfs_client.Xdr.Io.{Bytes}
use go_nfs_client.Xdr.Encoder
use go_nfs_client.Xdr.Encoder.{Put, skip, ◌>>◌}
use go_nfs_client.Xdr.Decoder
use go_nfs_client.Xdr.Decoder.{Get, pure, times, ◌>>=◌}
use go_nfs_client.Nfs4.Opnums.{
  op_exchange_id, op_create_session, op_destroy_session, op_destroy_client_id, op_reclaim_complete,
  op_sequence,
}

pub record ExchangeIdArgs : Type 0 where
  pub verifier : Bytes
  pub owner_id : Bytes
  pub flags : ℕ

unfoldable pub encode_exchange_id : ExchangeIdArgs → Put
encode_exchange_id a = do
  Encoder.uint32 op_exchange_id
  Encoder.fixed_opaque a.verifier
  Encoder.opaque a.owner_id
  Encoder.uint32 a.flags
  Encoder.uint32 0
  Encoder.uint32 0

pub record ChannelAttrs : Type 0 where
  pub header_pad_size : ℕ
  pub max_request_size : ℕ
  pub max_response_size : ℕ
  pub max_response_size_cach : ℕ
  pub max_operations : ℕ
  pub max_requests : ℕ

unfoldable pub encode_channel_attrs : ChannelAttrs → Put
encode_channel_attrs c = do
  Encoder.uint32 c.header_pad_size
  Encoder.uint32 c.max_request_size
  Encoder.uint32 c.max_response_size
  Encoder.uint32 c.max_response_size_cach
  Encoder.uint32 c.max_operations
  Encoder.uint32 c.max_requests
  Encoder.uint32 0

-- The elements of ca_rdma_ird are read and dropped.
unfoldable pub decode_channel_attrs : Get ChannelAttrs
decode_channel_attrs = do
  header_pad_size ← Decoder.uint32
  max_request_size ← Decoder.uint32
  max_response_size ← Decoder.uint32
  max_response_size_cach ← Decoder.uint32
  max_operations ← Decoder.uint32
  max_requests ← Decoder.uint32
  n ← Decoder.uint32
  _ ← times n Decoder.uint32
  pure (record {
    header_pad_size = header_pad_size;
    max_request_size = max_request_size;
    max_response_size = max_response_size;
    max_response_size_cach = max_response_size_cach;
    max_operations = max_operations;
    max_requests = max_requests;
  })

pub record CreateSessionArgs : Type 0 where
  pub client_id : ℕ
  pub sequence_id : ℕ
  pub flags : ℕ
  pub fore_chan : ChannelAttrs
  pub back_chan : ChannelAttrs
  pub cb_program : ℕ

unfoldable pub encode_create_session : CreateSessionArgs → Put
encode_create_session a = do
  Encoder.uint32 op_create_session
  Encoder.uint64 a.client_id
  Encoder.uint32 a.sequence_id
  Encoder.uint32 a.flags
  encode_channel_attrs a.fore_chan
  encode_channel_attrs a.back_chan
  Encoder.uint32 a.cb_program
  Encoder.uint32 0

pub record DestroySessionArgs : Type 0 where
  pub session_id : Bytes

unfoldable pub encode_destroy_session : DestroySessionArgs → Put
encode_destroy_session a = do Encoder.uint32 op_destroy_session; Encoder.fixed_opaque a.session_id

pub record DestroyClientIdArgs : Type 0 where
  pub client_id : ℕ

unfoldable pub encode_destroy_client_id : DestroyClientIdArgs → Put
encode_destroy_client_id a = do Encoder.uint32 op_destroy_client_id; Encoder.uint64 a.client_id

pub record ReclaimCompleteArgs : Type 0 where
  pub one_fs : Bool

unfoldable pub encode_reclaim_complete : ReclaimCompleteArgs → Put
encode_reclaim_complete a = do Encoder.uint32 op_reclaim_complete; Encoder.bool a.one_fs

pub record SequenceArgs : Type 0 where
  pub session_id : Bytes
  pub sequence_id : ℕ
  pub slot_id : ℕ
  pub highest_slot_id : ℕ
  pub cache_this : Bool

unfoldable pub encode_sequence : SequenceArgs → Put
encode_sequence a = do
  Encoder.uint32 op_sequence
  Encoder.fixed_opaque a.session_id
  Encoder.uint32 a.sequence_id
  Encoder.uint32 a.slot_id
  Encoder.uint32 a.highest_slot_id
  Encoder.bool a.cache_this
