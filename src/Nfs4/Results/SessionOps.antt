-- ===== src/Nfs4/Results/SessionOps.antt =====
-- nfs4/sessionops.go: the results of the NFSv4.1 operations.
use go_nfs_client.Prelude.{ℕ, if◌then◌else◌, ◌==◌}
use go_nfs_client.Prelude.Int.{pos}
use go_nfs_client.Xdr.Io.{Bytes}
use go_nfs_client.Xdr.Decoder
use go_nfs_client.Xdr.Decoder.{Decoder, Get, pure, times, get_err, ◌>>=◌}
use go_nfs_client.Nfs4.Types.{copy, nfs4_ok}
use go_nfs_client.Nfs4.Args.{ChannelAttrs, decode_channel_attrs}

pub record ExchangeIdRes : Type 0 where
  pub status : ℕ
  pub client_id : ℕ
  pub sequence_id : ℕ
  pub flags : ℕ

-- An nfs_impl_id4, dropped.
unfoldable pub discard_impl_id : Get (Unit {0})
discard_impl_id = do
  _ ← Decoder.string
  _ ← Decoder.string
  _ ← Decoder.int64
  _ ← Decoder.uint32
  pure tt

unfoldable pub decode_exchange_id_res : ExchangeIdRes → Get ExchangeIdRes
decode_exchange_id_res r = do
  status ← Decoder.uint32
  if status == nfs4_ok
      then (do
        client_id ← Decoder.uint64
        sequence_id ← Decoder.uint32
        flags ← Decoder.uint32
        _ ← Decoder.uint32
        _ ← Decoder.uint64
        _ ← Decoder.opaque
        _ ← Decoder.opaque
        n ← Decoder.uint32
        _ ← times n discard_impl_id
        pure (record r {
          status = status;
          client_id = client_id;
          sequence_id = sequence_id;
          flags = flags;
        }))
      else pure (record r { status = status })

pub record CreateSessionRes : Type 0 where
  pub status : ℕ
  pub session_id : Bytes
  pub sequence_id : ℕ
  pub flags : ℕ
  pub fore_chan : ChannelAttrs
  pub back_chan : ChannelAttrs

unfoldable pub decode_create_session_res : CreateSessionRes → Get CreateSessionRes
decode_create_session_res r = do
  status ← Decoder.uint32
  if status == nfs4_ok
      then (do
        session_id ← Decoder.fixed_opaque (pos 16)
        sequence_id ← Decoder.uint32
        flags ← Decoder.uint32
        fore_chan ← decode_channel_attrs
        back_chan ← decode_channel_attrs
        pure (record r {
          status = status;
          session_id = copy r.session_id session_id;
          sequence_id = sequence_id;
          flags = flags;
          fore_chan = fore_chan;
          back_chan = back_chan;
        }))
      else pure (record r { status = status })

pub record DestroySessionRes : Type 0 where
  pub status : ℕ

unfoldable pub decode_destroy_session_res : DestroySessionRes → Get DestroySessionRes
decode_destroy_session_res r = do status ← Decoder.uint32; pure (record { status = status })

pub record DestroyClientIdRes : Type 0 where
  pub status : ℕ

unfoldable pub decode_destroy_client_id_res : DestroyClientIdRes → Get DestroyClientIdRes
decode_destroy_client_id_res r = do status ← Decoder.uint32; pure (record { status = status })

pub record ReclaimCompleteRes : Type 0 where
  pub status : ℕ

unfoldable pub decode_reclaim_complete_res : ReclaimCompleteRes → Get ReclaimCompleteRes
decode_reclaim_complete_res r = do status ← Decoder.uint32; pure (record { status = status })

pub record SequenceRes : Type 0 where
  pub status : ℕ
  pub session_id : Bytes
  pub sequence_id : ℕ
  pub slot_id : ℕ
  pub highest_slot_id : ℕ
  pub target_highest_slot : ℕ
  pub status_flags : ℕ

unfoldable pub decode_sequence_res : SequenceRes → Get SequenceRes
decode_sequence_res r = do
  status ← Decoder.uint32
  if status == nfs4_ok
      then (do
        session_id ← Decoder.fixed_opaque (pos 16)
        sequence_id ← Decoder.uint32
        slot_id ← Decoder.uint32
        highest_slot_id ← Decoder.uint32
        target_highest_slot ← Decoder.uint32
        status_flags ← Decoder.uint32
        pure (record r {
          status = status;
          session_id = copy r.session_id session_id;
          sequence_id = sequence_id;
          slot_id = slot_id;
          highest_slot_id = highest_slot_id;
          target_highest_slot = target_highest_slot;
          status_flags = status_flags;
        }))
      else pure (record r { status = status })
