-- ===== src/Nfs4/Conn/Panics/Mounts.antt =====
-- No method of a connection calls Err on a nil result: mounting, renewing, and paths.
use go_nfs_client.Prelude.{
  Bool-cases, Option-cases, inl, inr, Option, some, List, arith, ◌==◌, if◌then◌else◌, leb,
}
use go_nfs_client.Xdr.Io.{Bytes}
use go_nfs_client.Nfs4.Results.{CreateSessionRes}
use go_nfs_client.Nfs4.Compound.{CompoundResult}
use go_nfs_client.Nfs4.Conn.Stack.{Environment}
use go_nfs_client.Nfs4.Conn.Action.{pure, modify, ◌>>=◌, check, check_result}
use go_nfs_client.Nfs4.Conn.Bootstrap.{
  minor_v41, nfs4err_complete_already, fetched_fh, new_pointer, new_verifier, exchange_id,
  exchange_id_with, create_session, start_session, reclaim_complete, set_client_id,
  set_client_id_with, confirm_client_id, fetch_root_fh, mount_v41, mount,
}
use go_nfs_client.Nfs4.Conn.Reading.{renew, lookup_path}
use go_nfs_client.Nfs4.Conn.Speaks.{Decodes}
use go_nfs_client.Nfs4.Conn.Panics.{
  Safe, pure-Safe, check-Safe, check_result-Safe, bind-Safe, call-Safe, update-Safe,
  only_status-Safe, modify-Safe,
}
use go_nfs_client.Nfs4.Conn.Panics.Methods.{lookup_components-Safe}

module _ {W : Type 0} (env : Environment W) (h : Decodes env) where
  new_verifier-Safe : Safe (new_verifier env)
  unfolding new_verifier
  new_verifier-Safe = record { never = λ c w p. ground arith }

  exchange_id-Safe : Safe (exchange_id env)
  unfolding exchange_id exchange_id_with
  exchange_id-Safe = bind-Safe (new_verifier env) (exchange_id_with env) new_verifier-Safe (λ v.
      update-Safe env h _ _ _ (λ t. t.status)
        (λ t. modify (λ c. record c { client_id = t.client_id; eir_sequence = t.sequence_id }))
        (λ t. modify-Safe _))

  set_client_id-Safe : Safe (set_client_id env)
  unfolding set_client_id set_client_id_with
  set_client_id-Safe = bind-Safe (new_verifier env) (set_client_id_with env) new_verifier-Safe (λ v.
      update-Safe env h _ _ _ (λ t. t.status)
        (λ t. modify (λ c. record c { client_id = t.client_id; confirm = t.confirm }))
        (λ t. modify-Safe _))

  start_session-Safe : (res : CreateSessionRes) → Safe (start_session env res)
  unfolding start_session new_pointer
  start_session-Safe res = record { never = λ c w p. ground arith }

  create_session-Safe : Safe (create_session env)
  unfolding create_session
  create_session-Safe =
      update-Safe env h _ _ _ (λ t. t.status) (start_session env) start_session-Safe

  reclaim_complete-Safe : Safe (reclaim_complete env)
  unfolding reclaim_complete
  reclaim_complete-Safe =
      call-Safe env h _ _ _
        (λ x. if x.1.status == nfs4err_complete_already then pure tt else check x.1.status)
        (λ r t. elim (Bool-cases (t.status == nfs4err_complete_already)) [
          | inl e ↦ rw e (pure-Safe tt)
          | inr e ↦ rw e (check-Safe t.status)
        ])

  confirm_client_id-Safe : Safe (confirm_client_id env)
  unfolding confirm_client_id
  confirm_client_id-Safe = only_status-Safe env h _ _ _ (λ t. t.status)

  pub renew-Safe : Safe (renew env)
  unfolding renew
  renew-Safe = record { never = λ c w. (only_status-Safe env h _ _ _ (λ t. t.status)).never c w }

  fetch_root_fh-Safe : Safe (fetch_root_fh env)
  unfolding fetch_root_fh
  fetch_root_fh-Safe =
      let set = λ (r : Option CompoundResult) (fh : Bytes).
        modify {W = W} (λ c. record c { root_fh = fetched_fh r fh }) in
      call-Safe env h _ _ _
        (λ x. check_result x.0 >>= λ _. check x.1.1.status >>= λ _. set x.0 x.1.1.fh)
        (λ r t.
          bind-Safe (check_result (some r)) (λ _. check t.1.status >>= λ _. set (some r) t.1.fh)
            (check_result-Safe r)
            (λ _.
              bind-Safe (check t.1.status) (λ _. set (some r) t.1.fh) (check-Safe t.1.status)
                (λ _. modify-Safe _)))

  pub mount-Safe : Safe (mount env)
  unfolding mount mount_v41
  mount-Safe = record {
    never = λ c w. elim (Bool-cases (leb minor_v41 c.cfg.minor_version)) [
      | inl e ↦ rw e (
          (bind-Safe (exchange_id env)
              (λ _. create_session env >>= λ _. reclaim_complete env >>= λ _. fetch_root_fh env)
              exchange_id-Safe
              (λ _.
                bind-Safe (create_session env)
                  (λ _. reclaim_complete env >>= λ _. fetch_root_fh env) create_session-Safe
                  (λ _.
                    bind-Safe (reclaim_complete env) (λ _. fetch_root_fh env) reclaim_complete-Safe
                      (λ _. fetch_root_fh-Safe)))).never
            c w)
      | inr e ↦ rw e (
          (bind-Safe (set_client_id env) (λ _. confirm_client_id env >>= λ _. fetch_root_fh env)
              set_client_id-Safe
              (λ _.
                bind-Safe (confirm_client_id env) (λ _. fetch_root_fh env) confirm_client_id-Safe
                  (λ _. fetch_root_fh-Safe))).never
            c w)
    ];
  }

  pub lookup_path-Safe : (components : List Bytes) → Safe (lookup_path env components)
  unfolding lookup_path
  lookup_path-Safe components = record {
    never = λ c w p. elim (Option-cases c.root_fh) [
      | inl e ↦ ground (arith, e)
      | inr (fh, e) ↦ ground (arith, e, (lookup_components-Safe env h components fh).never c w)
    ];
  }
