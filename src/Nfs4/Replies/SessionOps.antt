-- ===== src/Nfs4/Replies/SessionOps.antt =====
-- Replies to the operations of nfs4/sessionops.go.
use go_nfs_client.Prelude.{◌∙◌, sym, if◌then◌else◌, ◌==◌}
use go_nfs_client.Xdr.Encoder
use go_nfs_client.Xdr.Encoder.{Put, each, skip, ◌>>◌}
use go_nfs_client.Xdr.Codec.{Codec, Codec-then, Codec-map, Codec-pure}
use go_nfs_client.Xdr.RoundTrip.{uint32-Codec}
use go_nfs_client.Nfs4.Types.{copy, copy-Array, nfs4_ok, U32, Array, Array-Codec, if-Codec}
use go_nfs_client.Nfs4.Args.{encode_channel_attrs}
use go_nfs_client.Nfs4.Server.{FitsChannelAttrs}
use go_nfs_client.Nfs4.Server.SessionOps.{channel_attrs-Codec}
use go_nfs_client.Nfs4.Results.{
  CreateSessionRes, SequenceRes, decode_create_session_res, decode_sequence_res,
}

pub put_create_session_res : CreateSessionRes → Put
put_create_session_res a = do
  Encoder.uint32 a.status
  (if a.status == nfs4_ok
      then (do
        Encoder.fixed_opaque a.session_id
        Encoder.uint32 a.sequence_id
        Encoder.uint32 a.flags
        encode_channel_attrs a.fore_chan
        encode_channel_attrs a.back_chan)
      else skip)

create_session_copied :
    (a r : CreateSessionRes)
    → U32 a.status
    → Array 16 a.session_id
    → U32 a.sequence_id
    → U32 a.flags
    → FitsChannelAttrs a.fore_chan
    → FitsChannelAttrs a.back_chan
    → Codec (put_create_session_res a) (decode_create_session_res r) (
        if a.status == nfs4_ok
        then record r {
          status = a.status;
          session_id = copy r.session_id a.session_id;
          sequence_id = a.sequence_id;
          flags = a.flags;
          fore_chan = a.fore_chan;
          back_chan = a.back_chan;
        }
        else record r { status = a.status })
unfolding put_create_session_res decode_create_session_res
create_session_copied a r hs h0 h1 h2 h3 h4 = Codec-then _ (uint32-Codec a.status hs) (
    if-Codec (a.status == nfs4_ok)
      (λ _. Codec-then _ (Array-Codec 16 a.session_id h0) (
        Codec-then _ (uint32-Codec a.sequence_id h1) (
          Codec-then _ (uint32-Codec a.flags h2) (
            Codec-then _ (channel_attrs-Codec a.fore_chan h3) (
              Codec-map {B = CreateSessionRes}
                (λ back_chan. record r {
                  status = a.status;
                  session_id = copy r.session_id a.session_id;
                  sequence_id = a.sequence_id;
                  flags = a.flags;
                  fore_chan = a.fore_chan;
                  back_chan = back_chan;
                })
                (channel_attrs-Codec a.back_chan h4))))))
      (λ _. Codec-pure _))

pub create_session_res-Codec :
    (a r : CreateSessionRes)
    → U32 a.status
    → Array 16 a.session_id
    → U32 a.sequence_id
    → U32 a.flags
    → FitsChannelAttrs a.fore_chan
    → FitsChannelAttrs a.back_chan
    → Array 16 r.session_id
    → Codec (put_create_session_res a) (decode_create_session_res r) (
        if a.status == nfs4_ok
        then record r {
          status = a.status;
          session_id = a.session_id;
          sequence_id = a.sequence_id;
          flags = a.flags;
          fore_chan = a.fore_chan;
          back_chan = a.back_chan;
        }
        else record r { status = a.status })
create_session_res-Codec a r hs h0 h1 h2 h3 h4 k0 =
    rw (copy-Array r.session_id a.session_id (h0 ∙ sym k0)) at
      (create_session_copied a r hs h0 h1 h2 h3 h4)

pub put_sequence_res : SequenceRes → Put
put_sequence_res a = do
  Encoder.uint32 a.status
  (if a.status == nfs4_ok
      then (do
        Encoder.fixed_opaque a.session_id
        Encoder.uint32 a.sequence_id
        Encoder.uint32 a.slot_id
        Encoder.uint32 a.highest_slot_id
        Encoder.uint32 a.target_highest_slot
        Encoder.uint32 a.status_flags)
      else skip)

sequence_copied :
    (a r : SequenceRes)
    → U32 a.status
    → Array 16 a.session_id
    → U32 a.sequence_id
    → U32 a.slot_id
    → U32 a.highest_slot_id
    → U32 a.target_highest_slot
    → U32 a.status_flags
    → Codec (put_sequence_res a) (decode_sequence_res r) (
        if a.status == nfs4_ok
        then record r {
          status = a.status;
          session_id = copy r.session_id a.session_id;
          sequence_id = a.sequence_id;
          slot_id = a.slot_id;
          highest_slot_id = a.highest_slot_id;
          target_highest_slot = a.target_highest_slot;
          status_flags = a.status_flags;
        }
        else record r { status = a.status })
unfolding put_sequence_res decode_sequence_res
sequence_copied a r hs h0 h1 h2 h3 h4 h5 = Codec-then _ (uint32-Codec a.status hs) (
    if-Codec (a.status == nfs4_ok)
      (λ _. Codec-then _ (Array-Codec 16 a.session_id h0) (
        Codec-then _ (uint32-Codec a.sequence_id h1) (
          Codec-then _ (uint32-Codec a.slot_id h2) (
            Codec-then _ (uint32-Codec a.highest_slot_id h3) (
              Codec-then _ (uint32-Codec a.target_highest_slot h4) (
                Codec-map {B = SequenceRes}
                  (λ status_flags. record r {
                    status = a.status;
                    session_id = copy r.session_id a.session_id;
                    sequence_id = a.sequence_id;
                    slot_id = a.slot_id;
                    highest_slot_id = a.highest_slot_id;
                    target_highest_slot = a.target_highest_slot;
                    status_flags = status_flags;
                  })
                  (uint32-Codec a.status_flags h5)))))))
      (λ _. Codec-pure _))

pub sequence_res-Codec :
    (a r : SequenceRes)
    → U32 a.status
    → Array 16 a.session_id
    → U32 a.sequence_id
    → U32 a.slot_id
    → U32 a.highest_slot_id
    → U32 a.target_highest_slot
    → U32 a.status_flags
    → Array 16 r.session_id
    → Codec (put_sequence_res a) (decode_sequence_res r) (
        if a.status == nfs4_ok
        then record r {
          status = a.status;
          session_id = a.session_id;
          sequence_id = a.sequence_id;
          slot_id = a.slot_id;
          highest_slot_id = a.highest_slot_id;
          target_highest_slot = a.target_highest_slot;
          status_flags = a.status_flags;
        }
        else record r { status = a.status })
sequence_res-Codec a r hs h0 h1 h2 h3 h4 h5 k0 =
    rw (copy-Array r.session_id a.session_id (h0 ∙ sym k0)) at
      (sequence_copied a r hs h0 h1 h2 h3 h4 h5)
