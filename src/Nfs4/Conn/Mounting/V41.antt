-- ===== src/Nfs4/Conn/Mounting/V41.antt =====
-- Mount for NFSv4.1.
use go_nfs_client.Prelude.{
  ℕ, ◌≡◌, refl, true, false, leb, ltb, some, [], ◌∷◌, ◌++◌, inr, length, arith, if◌then◌else◌,
}
use go_nfs_client.Prelude.Int.{pos}
use go_nfs_client.Xdr.Io.{Bytes}
use go_nfs_client.Xdr.Codec.{Codec-map}
use go_nfs_client.Xdr.RoundTrip.{uint32-Codec}
use go_nfs_client.Nfs4.Types.{nfs4_ok, U32, U64, Small}
use go_nfs_client.Nfs4.Opnums.{op_reclaim_complete}
use go_nfs_client.Nfs4.Args.{
  exchange_id_args, create_session_args, reclaim_complete_args, putrootfh_args, getfh_args,
}
use go_nfs_client.Nfs4.Results.{CreateSessionRes, decode_reclaim_complete_res}
use go_nfs_client.Nfs4.Replies.SessionOps.{create_session_res-Codec}
use go_nfs_client.Nfs4.Compound.{Compound, new_compound, add}
use go_nfs_client.Nfs4.Compound.Replies.{Answers}
use go_nfs_client.Nfs4.Caller.{status_err}
use go_nfs_client.Nfs4.Session.{new_session}
use go_nfs_client.Nfs4.Conn.Stack.{World, Environment, rand_bytes}
use go_nfs_client.Nfs4.Conn.Action.{Conn, ok, check, compound}
use go_nfs_client.Nfs4.Conn.Zero.{
  new_exchange_id_res, exchange_id_result, new_create_session_res, create_session_result,
  new_reclaim_complete_res, reclaim_complete_result,
}
use go_nfs_client.Nfs4.Conn.Bootstrap.{
  minor_v41, exchgid_flag_use_non_pnfs, client_name, new_verifier, exchange_id, exchange_id_with,
  start_session, create_session, channel, new_pointer, install, reclaim_complete, mount_v41, mount,
}
use go_nfs_client.Nfs4.Conn.Carried.{Carried}
use go_nfs_client.Nfs4.Conn.Walks.{requested, call-Carried, status_resop}
use go_nfs_client.Nfs4.Conn.Mounting.{one-Answers, root_resops, fetch_root_fh-Carried}
use go_nfs_client.Nfs4.Conn.Mounting.Grants.{
  ServerOwner, FitsOwner, exchanged, exchange_id_res-Codec, exchange_resops, created,
  session_resops, FitsSession,
}

-- The number of slots that the server's answer asks for.
abbrev pub slots_of : CreateSessionRes → ℕ
slots_of a = if ltb a.fore_chan.max_requests 1 then 1 else a.fore_chan.max_requests

abbrev pub with_new_session : {W : Type 0} → CreateSessionRes → World W → World W
with_new_session a w = record w {
  sessions = w.sessions ++ (new_session a.session_id (pos (slots_of a)) ∷ []);
}

abbrev pub with_session_caller : ℕ → Conn → Conn
with_session_caller p c = record c { session = some p; caller = install p c.caller }

module _ {W : Type 0} (env : Environment W) where
  abbrev exchange_request : Conn → Bytes → Compound
  exchange_request c verifier = requested c (
      exchange_id_args (record {
        verifier = verifier;
        owner_id = client_name env c;
        flags = exchgid_flag_use_non_pnfs;
      })
      ∷ [])

  abbrev session_request : Conn → ℕ → ℕ → Compound
  session_request c client_id sequence_id = requested c (
      create_session_args (record {
        client_id = client_id;
        sequence_id = sequence_id;
        flags = 0;
        fore_chan = channel env;
        back_chan = channel env;
        cb_program = 0;
      })
      ∷ [])

  exchange_id-Carried :
      (c : Conn) (w w₁ w₂ : World W) (verifier : Bytes) (client_id sequence_id flags : ℕ)
      (o : ServerOwner)
      → env.rand w ≡ (rand_bytes verifier, w₁)
      → U64 client_id
      → U32 sequence_id
      → U32 flags
      → FitsOwner o
      → Carried env c.caller
          (exchange_request c verifier)
          w₁
          nfs4_ok
          (exchange_resops client_id sequence_id flags o)
          w₂
      → exchange_id env c w
        ≡ (ok tt, record c { client_id = client_id; eir_sequence = sequence_id }, w₂)
  unfolding exchange_id exchange_id_with new_verifier compound new_compound add check status_err
      exchange_id_result
  exchange_id-Carried c w w₁ w₂ verifier client_id sequence_id flags o hr hi hs hf ho h =
      let a : Answers (exchange_id_result ∷ []) (exchange_resops client_id sequence_id flags o)
          new_exchange_id_res (exchanged client_id sequence_id flags) =
        one-Answers exchange_id_result _ _ _ _ (inr refl) (omega arith)
          (exchange_id_res-Codec client_id sequence_id flags o new_exchange_id_res hi hs hf ho) in
      let e = call-Carried env (λ c. exchange_request c verifier) _ _ _ c w₁ w₂ nfs4_ok _ h a in
      ground (arith, hr, e)

  create_session-Carried :
      (c : Conn) (w w' : World W) (a : CreateSessionRes)
      → FitsSession a
      → Carried env c.caller
          (session_request c c.client_id c.eir_sequence)
          w
          nfs4_ok
          (session_resops a)
          w'
      → create_session env c w
        ≡ (ok tt, with_session_caller (length w'.sessions) c, with_new_session a w')
  unfolding create_session start_session compound new_compound add check status_err
      create_session_result new_pointer
  create_session-Carried c w w' a fits h =
      let b : Answers (create_session_result ∷ []) (session_resops a) new_create_session_res
          (created a) =
        one-Answers create_session_result _ _ _ _ (inr refl) (omega arith) (
          create_session_res-Codec (created a) new_create_session_res (omega arith) fits.id_fits
            fits.sequence_fits fits.flags_fits fits.fore_fits fits.back_fits refl) in
      let e =
        call-Carried env (λ c. session_request c c.client_id c.eir_sequence) _ _ _ c w w' nfs4_ok _
          h b in
      ground (arith, e)

  reclaim_complete-Carried :
      (c : Conn) (w w' : World W)
      → Carried env c.caller
          (requested c (reclaim_complete_args (record { one_fs = false }) ∷ []))
          w
          nfs4_ok
          (status_resop op_reclaim_complete nfs4_ok ∷ [])
          w'
      → reclaim_complete env c w ≡ (ok tt, c, w')
  unfolding reclaim_complete compound new_compound add check status_err reclaim_complete_result
      decode_reclaim_complete_res
  reclaim_complete-Carried c w w' h =
      let b : Answers (reclaim_complete_result ∷ []) (status_resop op_reclaim_complete nfs4_ok ∷ [])
          new_reclaim_complete_res (record { status = nfs4_ok }) =
        one-Answers reclaim_complete_result _ _ _ _ (inr refl) (omega arith)
          (Codec-map (λ x. record { status = x }) (uint32-Codec nfs4_ok (omega arith))) in
      let e =
        call-Carried env (λ c. requested c (reclaim_complete_args (record { one_fs = false }) ∷ []))
          _ _ _ c w w' nfs4_ok _ h b in
      ground (arith, e)

  -- Where the server answers EXCHANGE_ID, CREATE_SESSION with the client id and the sequence id of
  -- that answer, and then, through a caller that sends SEQUENCE on the new session,
  -- RECLAIM_COMPLETE and the lookup of the root handle with success, Mount on a connection
  -- configured for minor version 1 or above returns no error and leaves a connection with the
  -- client id, the sequence id, the root handle, and a new session whose slots are the server's
  -- ca_maxrequests, and at least one. Here crypto/rand gives a verifier, the server's values have
  -- their sizes, and the answer to EXCHANGE_ID has no implementation id.
  pub mount-v41 :
      (c : Conn) (w w₁ w₂ w₃ w₄ w₅ : World W) (verifier fh : Bytes)
      (client_id sequence_id flags : ℕ) (o : ServerOwner) (a : CreateSessionRes)
      → leb minor_v41 c.cfg.minor_version ≡ true
      → env.rand w ≡ (rand_bytes verifier, w₁)
      → U64 client_id
      → U32 sequence_id
      → U32 flags
      → FitsOwner o
      → FitsSession a
      → Small fh
      → Carried env c.caller
          (exchange_request c verifier)
          w₁
          nfs4_ok
          (exchange_resops client_id sequence_id flags o)
          w₂
      → Carried env c.caller
          (session_request c client_id sequence_id)
          w₂
          nfs4_ok
          (session_resops a)
          w₃
      → Carried env
          (install (length w₃.sessions) c.caller)
          (requested c (reclaim_complete_args (record { one_fs = false }) ∷ []))
          (with_new_session a w₃)
          nfs4_ok
          (status_resop op_reclaim_complete nfs4_ok ∷ [])
          w₄
      → Carried env
          (install (length w₃.sessions) c.caller)
          (requested c (putrootfh_args ∷ getfh_args ∷ []))
          w₄
          nfs4_ok
          (root_resops fh)
          w₅
      → mount env c w ≡ (
        ok tt,
        record c {
          client_id = client_id;
          eir_sequence = sequence_id;
          session = some (length w₃.sessions);
          caller = install (length w₃.sessions) c.caller;
          root_fh = some fh;
        },
        w₅,
      )
  unfolding mount mount_v41
  mount-v41 c w w₁ w₂ w₃ w₄ w₅ verifier fh client_id sequence_id flags o a minor hr hi hs hf ho ha
        hfh he hc hk hg =
      let c₁ = record c { client_id = client_id; eir_sequence = sequence_id } in
      let c₂ = with_session_caller (length w₃.sessions) c₁ in
      let exchanged =
        exchange_id-Carried c w w₁ w₂ verifier client_id sequence_id flags o hr hi hs hf ho he in
      let created = create_session-Carried c₁ w₂ w₃ a ha hc in
      let reclaimed = reclaim_complete-Carried c₂ (with_new_session a w₃) w₄ hk in
      let fetched = fetch_root_fh-Carried env c₂ w₄ w₅ fh hfh hg in
      ground (arith, minor, exchanged, created, reclaimed, fetched)
