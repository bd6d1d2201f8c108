-- ===== src/Nfs4/Conn/Mounting/Grants.antt =====
-- What a server answers to EXCHANGE_ID and CREATE_SESSION, after RFC 8881.
use go_nfs_client.Prelude.{ℕ, refl, List, [], ◌∷◌, arith}
use go_nfs_client.Xdr.Io.{Bytes}
use go_nfs_client.Xdr.Encoder
use go_nfs_client.Xdr.Encoder.{Put, ◌>>◌}
use go_nfs_client.Xdr.Decoder.{times, pure, ◌>>=◌}
use go_nfs_client.Xdr.Codec.{Codec, Reads, Codec-then, Codec-end}
use go_nfs_client.Xdr.RoundTrip.{uint32-Codec, uint64-Codec, opaque-Codec}
use go_nfs_client.Nfs4.Types.{nfs4_ok, U32, U64, Small, Array}
use go_nfs_client.Nfs4.Opnums.{op_exchange_id, op_create_session}
use go_nfs_client.Nfs4.Results.{
  ExchangeIdRes, decode_exchange_id_res, discard_impl_id, CreateSessionRes,
}
use go_nfs_client.Nfs4.Server.{FitsChannelAttrs}
use go_nfs_client.Nfs4.Replies.SessionOps.{put_create_session_res}
use go_nfs_client.Nfs4.Compound.Replies.{Resop}

-- What a server tells of itself in its answer to EXCHANGE_ID; the client drops it.
pub record ServerOwner : Type 0 where
  pub minor_id : ℕ
  pub major_id : Bytes
  pub scope : Bytes

pub record FitsOwner (o : ServerOwner) : Type 0 where
  pub minor_fits : U64 o.minor_id
  pub major_fits : Small o.major_id
  pub scope_fits : Small o.scope

-- EXCHANGE_ID4resok, with SP4_NONE and without an nfs_impl_id4.
pub put_exchange_id_res : ℕ → ℕ → ℕ → ServerOwner → Put
put_exchange_id_res client_id sequence_id flags o = do
  Encoder.uint32 nfs4_ok
  Encoder.uint64 client_id
  Encoder.uint32 sequence_id
  Encoder.uint32 flags
  Encoder.uint32 0
  Encoder.uint64 o.minor_id
  Encoder.opaque o.major_id
  Encoder.opaque o.scope
  Encoder.uint32 0

abbrev pub exchanged : ℕ → ℕ → ℕ → ExchangeIdRes
exchanged client_id sequence_id flags = record {
  status = nfs4_ok;
  client_id = client_id;
  sequence_id = sequence_id;
  flags = flags;
}

no_impl_id-Reads : (x : ExchangeIdRes) → Reads (do _ ← times 0 discard_impl_id; pure x) [] x
unfolding times pure ◌>>=◌
no_impl_id-Reads x ending rest = refl

pub exchange_id_res-Codec :
    (client_id sequence_id flags : ℕ) (o : ServerOwner) (r : ExchangeIdRes)
    → U64 client_id
    → U32 sequence_id
    → U32 flags
    → FitsOwner o
    → Codec
        (put_exchange_id_res client_id sequence_id flags o)
        (decode_exchange_id_res r)
        (exchanged client_id sequence_id flags)
unfolding put_exchange_id_res decode_exchange_id_res
exchange_id_res-Codec client_id sequence_id flags o r hi hs hf ho =
    Codec-then _ (uint32-Codec nfs4_ok (omega arith)) (
      Codec-then _ (uint64-Codec client_id hi) (
        Codec-then _ (uint32-Codec sequence_id hs) (
          Codec-then _ (uint32-Codec flags hf) (
            Codec-then _ (uint32-Codec 0 (omega arith)) (
              Codec-then _ (uint64-Codec o.minor_id ho.minor_fits) (
                Codec-then _ (opaque-Codec o.major_id ho.major_fits) (
                  Codec-then _ (opaque-Codec o.scope ho.scope_fits)
                    (Codec-end _ (uint32-Codec 0 (omega arith)) (no_impl_id-Reads _)))))))))

abbrev pub exchange_resops : ℕ → ℕ → ℕ → ServerOwner → List Resop
exchange_resops client_id sequence_id flags o =
    record { op = op_exchange_id; body = put_exchange_id_res client_id sequence_id flags o } ∷ []

abbrev pub created : CreateSessionRes → CreateSessionRes
created a = record a { status = nfs4_ok }

abbrev pub session_resops : CreateSessionRes → List Resop
session_resops a = record { op = op_create_session; body = put_create_session_res (created a) } ∷ []

pub record FitsSession (a : CreateSessionRes) : Type 0 where
  pub id_fits : Array 16 a.session_id
  pub sequence_fits : U32 a.sequence_id
  pub flags_fits : U32 a.flags
  pub fore_fits : FitsChannelAttrs a.fore_chan
  pub back_fits : FitsChannelAttrs a.back_chan
