-- ===== src/Examples/MountRuns.antt =====
-- Mounting with NFSv4.1, and a lookup on the wire.
use go_nfs_client.Prelude.{
  ℕ, ◌+◌, ◌≡◌, refl, true, false, some, List, [], ◌∷◌, length, replicate, arith,
}
use go_nfs_client.Xdr.Io.{Bytes}
use go_nfs_client.Nfs4.Types.{nfs4_ok, U32}
use go_nfs_client.Nfs4.Opnums.{op_sequence, op_reclaim_complete}
use go_nfs_client.Nfs4.Args.{ChannelAttrs}
use go_nfs_client.Nfs4.Server.{FitsChannelAttrs}
use go_nfs_client.Nfs4.Results.{CreateSessionRes, SequenceRes}
use go_nfs_client.Nfs4.Replies.SessionOps.{put_sequence_res, sequence_res-Codec}
use go_nfs_client.Nfs4.Compound.{Compound, encode_compound}
use go_nfs_client.Nfs4.Compound.Replies.{Resop}
use go_nfs_client.Nfs4.Session.{
  Session, SlotLease, new_session, take_token, put_token, claim_slot, find_free, release,
  release_slot, freed,
}
use go_nfs_client.Nfs4.SessionCaller.{new_sequence_res, wrapped}
use go_nfs_client.Nfs4.Conn.Stack.{rpc_caller, retry_caller, session_caller, load, store}
use go_nfs_client.Nfs4.Conn.Action.{Conn, ok, new_conn}
use go_nfs_client.Nfs4.Conn.Bootstrap.{mount, install}
use go_nfs_client.Nfs4.Conn.Carried.{Carried, rpc-Carried, retry-Carried, session-Carried}
use go_nfs_client.Nfs4.Conn.Walks.{status_resop}
use go_nfs_client.Nfs4.Conn.Mounting.{root_resops}
use go_nfs_client.Nfs4.Conn.Mounting.Grants.{exchange_resops, session_resops}
use go_nfs_client.Nfs4.Conn.Mounting.V41.{mount-v41}
use go_nfs_client.Examples.ConnRuns.{
  config, fresh, script, reply, at_script, next_reply, nine, serving-Delivered, script-Carried,
}

abbrev fresh41 : Conn
fresh41 = record fresh { cfg = record config { minor_version = 1 } }

abbrev channel_of : ℕ → ChannelAttrs
channel_of n = record {
  header_pad_size = 0;
  max_request_size = 1;
  max_response_size = 1;
  max_response_size_cach = 1;
  max_operations = 1;
  max_requests = n;
}

-- A session of one slot.
abbrev granted_session : CreateSessionRes
granted_session = record {
  status = nfs4_ok;
  session_id = replicate 16 6;
  sequence_id = 1;
  flags = 0;
  fore_chan = channel_of 0;
  back_chan = channel_of 0;
}

-- The session with its slot free, at a sequence id, and with its slot in use.
abbrev idle : ℕ → Session
idle seq = record {
  id = replicate 16 6;
  slots = record { seq = seq; in_use = false } ∷ [];
  highest = 0;
  free = 1;
}

abbrev busy : ℕ → Session
busy seq = record {
  id = replicate 16 6;
  slots = record { seq = seq; in_use = true } ∷ [];
  highest = 0;
  free = 0;
}

abbrev lease_of : ℕ → SlotLease
lease_of seq = record { slot_id = 0; seq = seq; highest = 0; released = false }

abbrev in_sequence : ℕ → SequenceRes
in_sequence seq = record {
  status = nfs4_ok;
  session_id = replicate 16 6;
  sequence_id = seq;
  slot_id = 0;
  highest_slot_id = 0;
  target_highest_slot = 0;
  status_flags = 0;
}

abbrev sequence_resop : ℕ → Resop
sequence_resop seq = record { op = op_sequence; body = put_sequence_res (in_sequence seq) }

-- The next reply of the script, through the session.
session_script-Carried :
    (c : Compound) (seq : ℕ) (resops : List Resop) (bs : List Bytes)
    → U32 seq
    → U32 (length resops + 1)
    → Carried script
        (retry_caller config.retry (session_caller 0 rpc_caller))
        c
        (at_script (idle seq ∷ []) (reply nfs4_ok (sequence_resop seq ∷ resops) ∷ bs))
        nfs4_ok
        resops
        (at_script ((release true (lease_of seq) (busy seq)).1 ∷ []) bs)
unfolding load store take_token claim_slot find_free
session_script-Carried c seq resops bs hs hn =
    retry-Carried script config.retry (session_caller 0 rpc_caller) c _ _ nfs4_ok resops refl
      (omega arith) (omega arith)
      (session-Carried script 0 rpc_caller c _ (at_script (busy seq ∷ []) bs) nfs4_ok resops
        (record (idle seq) { free = 0 }) (busy seq) (lease_of seq) (in_sequence seq)
        (put_sequence_res (in_sequence seq)) refl refl refl
        (sequence_res-Codec (in_sequence seq) new_sequence_res (omega arith) refl hs (omega arith)
          (omega arith) (omega arith) (omega arith) refl)
        refl
        (rpc-Carried script (wrapped (busy seq) (lease_of seq) c) _ _ nfs4_ok []
          (sequence_resop seq ∷ resops) (omega arith) (omega arith) (omega arith)
          (serving-Delivered next_reply (encode_compound (wrapped (busy seq) (lease_of seq) c))
            (at_script (busy seq ∷ []) (reply nfs4_ok (sequence_resop seq ∷ resops) ∷ bs)))))

channel-Fits : FitsChannelAttrs (channel_of 0)
channel-Fits = record {
  header_pad_size_fits = omega arith;
  max_request_size_fits = omega arith;
  max_response_size_fits = omega arith;
  max_response_size_cach_fits = omega arith;
  max_operations_fits = omega arith;
  max_requests_fits = omega arith;
}

mount-v41_example :
    mount script fresh41 (
      at_script [] (
        reply nfs4_ok
          (exchange_resops 77 5 0 (record { minor_id = 1; major_id = nine; scope = [] }))
        ∷ reply nfs4_ok (session_resops granted_session)
        ∷ reply nfs4_ok (sequence_resop 1 ∷ status_resop op_reclaim_complete nfs4_ok ∷ [])
        ∷ reply nfs4_ok (sequence_resop 2 ∷ root_resops nine)
        ∷ []))
    ≡ (
      ok tt,
      record fresh41 {
        client_id = 77;
        eir_sequence = 5;
        session = some 0;
        caller = retry_caller config.retry (session_caller 0 rpc_caller);
        root_fh = some nine;
      },
      at_script (idle 3 ∷ []) [],
    )
unfolding new_conn install new_session release release_slot freed put_token
mount-v41_example =
    mount-v41 script fresh41 _ _ _ _ _ _ (replicate 8 7) nine 77 5 0
      (record { minor_id = 1; major_id = nine; scope = [] }) granted_session refl refl (omega arith)
      (omega arith) (omega arith)
      (record { minor_fits = omega arith; major_fits = omega arith; scope_fits = omega arith })
      (record {
        id_fits = refl;
        sequence_fits = omega arith;
        flags_fits = omega arith;
        fore_fits = channel-Fits;
        back_fits = channel-Fits;
      })
      (omega arith)
      (script-Carried _ [] nfs4_ok
        (exchange_resops 77 5 0 (record { minor_id = 1; major_id = nine; scope = [] })) _
        (omega arith) (omega arith) (omega arith) (omega arith))
      (script-Carried _ [] nfs4_ok (session_resops granted_session) _ (omega arith) (omega arith)
        (omega arith) (omega arith))
      (session_script-Carried _ 1 (status_resop op_reclaim_complete nfs4_ok ∷ []) _ (omega arith)
        (omega arith))
      (session_script-Carried _ 2 (root_resops nine) _ (omega arith) (omega arith))
