-- ===== src/Nfs4/Conn/Bootstrap.antt =====
-- nfs4/conn.go and nfs4/transport.go: mounting, and closing.
use go_nfs_client.Prelude.{
  ℕ, ◌^◌, Bool, true, false, ◌||◌, Option, some, none, [], ◌∷◌, ◌++◌, length, if◌then◌else◌, ltb,
  leb, ◌==◌,
}
use go_nfs_client.Prelude.Int.{pos}
use go_nfs_client.Xdr.Io.{Bytes}
use go_nfs_client.Nfs4.Args.{
  ChannelAttrs, exchange_id_args, create_session_args, reclaim_complete_args, setclientid_args,
  setclientid_confirm_args, putrootfh_args, getfh_args, destroy_session_args,
  destroy_client_id_args,
}
use go_nfs_client.Nfs4.Results.{CreateSessionRes}
use go_nfs_client.Nfs4.Compound.{CompoundResult, add}
use go_nfs_client.Nfs4.Caller.{CallError, other_error, error_has_status}
use go_nfs_client.Nfs4.Session.{default_slot_count, new_session}
use go_nfs_client.Nfs4.Conn.Stack.{
  World, CallerStack, rpc_caller, session_caller, retry_caller, rand_failed, rand_bytes,
  Environment, load, call_compound,
}
use go_nfs_client.Nfs4.Conn.Action.{
  ConnConfig, Conn, Result, ok, err, panicked, Action, pure, modify, ◌>>=◌, ◌>>◌, new_conn, check,
  check_result, compound, call,
}
use go_nfs_client.Nfs4.Conn.Zero.{
  first, second, new_status_res, status_result, new_getfh_res, getfh_result, new_setclientid_res,
  setclientid_result, new_exchange_id_res, exchange_id_result, new_create_session_res,
  create_session_result, new_reclaim_complete_res, reclaim_complete_result, new_destroy_session_res,
  destroy_session_result, new_destroy_client_id_res, destroy_client_id_result,
}

abbrev pub minor_v40 : ℕ
minor_v40 = 0

abbrev pub minor_v41 : ℕ
minor_v41 = 1

abbrev pub nfs4err_notsupp : ℕ
nfs4err_notsupp = 10004

abbrev pub nfs4err_minor_vers_mismatch : ℕ
nfs4err_minor_vers_mismatch = 10021

abbrev pub nfs4err_op_illegal : ℕ
nfs4err_op_illegal = 10044

abbrev pub nfs4err_complete_already : ℕ
nfs4err_complete_already = 10054

abbrev pub exchgid_flag_use_non_pnfs : ℕ
exchgid_flag_use_non_pnfs = 262144

-- "go-nfs-client", "tcp" and "0.0.0.0.0.0".
abbrev pub go_nfs_client_name : Bytes
go_nfs_client_name = 103 ∷ 111 ∷ 45 ∷ 110 ∷ 102 ∷ 115 ∷ 45 ∷ 99 ∷ 108 ∷ 105 ∷ 101 ∷ 110 ∷ 116 ∷ []

abbrev pub tcp : Bytes
tcp = 116 ∷ 99 ∷ 112 ∷ []

abbrev pub no_callback_addr : Bytes
no_callback_addr = 48 ∷ 46 ∷ 48 ∷ 46 ∷ 48 ∷ 46 ∷ 48 ∷ 46 ∷ 48 ∷ 46 ∷ 48 ∷ []

-- `s == ""`
abbrev pub is_empty : Bytes → Bool
is_empty [] = true
is_empty (b ∷ bs) = false

-- `FileHandle(getRes.FH)`, which is nil exactly where the reply has no result for GETFH; a handle of
-- no bytes is not nil.
unfoldable pub fetched_fh : Option CompoundResult → Bytes → Option Bytes
fetched_fh none fh = none
fetched_fh (some r) fh = if ltb r.num_results 2 then none else some fh

-- A type assertion on the outermost caller.
unfoldable pub without_retry : CallerStack → CallerStack
without_retry (retry_caller cfg base) = base
without_retry (session_caller p base) = session_caller p base
without_retry rpc_caller = rpc_caller

unfoldable pub without_session : CallerStack → CallerStack
without_session (session_caller p base) = base
without_session (retry_caller cfg base) = retry_caller cfg base
without_session rpc_caller = rpc_caller

-- Where createSession puts the session's caller.
unfoldable pub install : ℕ → CallerStack → CallerStack
install p (retry_caller cfg base) = retry_caller cfg (session_caller p base)
install p (session_caller q base) = session_caller p (session_caller q base)
install p rpc_caller = session_caller p rpc_caller

-- `&Session{…}`: a new pointer.
unfoldable pub new_pointer : {W : Type 0} → Bytes → ℕ → Action W ℕ
new_pointer id slot_count c w = (
  ok (length w.sessions),
  c,
  record w { sessions = w.sessions ++ (new_session id (pos slot_count) ∷ []) },
)

module _ {W : Type 0} (env : Environment W) where
  unfoldable pub client_name : Conn → Bytes
  client_name c =
      if is_empty c.cfg.client_name
      then (go_nfs_client_name
          ++ (47 ∷ (if is_empty env.hostname then go_nfs_client_name else env.hostname)))
      else c.cfg.client_name

  unfoldable pub new_verifier : Action W Bytes
  new_verifier c w =
      let (r, w') = env.rand w in
      elim r [ rand_failed n ↦ (err (other_error n), c, w') | rand_bytes v ↦ (ok v, c, w') ]

  unfoldable pub exchange_id_with : Bytes → Action W (Unit {0})
  exchange_id_with verifier = do
    (_, res) ←
        call env
          (λ c. add (compound c) (
            exchange_id_args (record {
              verifier = verifier;
              owner_id = client_name c;
              flags = exchgid_flag_use_non_pnfs;
            })))
          (exchange_id_result ∷ []) new_exchange_id_res
    check res.status
    modify (λ c. record c { client_id = res.client_id; eir_sequence = res.sequence_id })

  unfoldable pub exchange_id : Action W (Unit {0})
  exchange_id = do verifier ← new_verifier; exchange_id_with verifier

  abbrev pub channel : ChannelAttrs
  channel = record {
    header_pad_size = 0;
    max_request_size = 2 ^ 20;
    max_response_size = 2 ^ 20;
    max_response_size_cach = 2 ^ 16;
    max_operations = 16;
    max_requests = default_slot_count;
  }

  -- What follows a CREATE_SESSION that succeeded. `int(res.ForeChan.MaxRequests)` is exact on a 64-bit
  -- platform.
  unfoldable pub start_session : CreateSessionRes → Action W (Unit {0})
  start_session res = do
    let slot_count = if ltb res.fore_chan.max_requests 1 then 1 else res.fore_chan.max_requests
    p ← new_pointer res.session_id slot_count
    modify (λ c. record c { session = some p; caller = install p c.caller })

  unfoldable pub create_session : Action W (Unit {0})
  create_session = do
    (_, res) ←
        call env
          (λ c. add (compound c) (
            create_session_args (record {
              client_id = c.client_id;
              sequence_id = c.eir_sequence;
              flags = 0;
              fore_chan = channel;
              back_chan = channel;
              cb_program = 0;
            })))
          (create_session_result ∷ []) new_create_session_res
    check res.status
    start_session res

  unfoldable pub reclaim_complete : Action W (Unit {0})
  reclaim_complete = do
    (_, res) ←
        call env (λ c. add (compound c) (reclaim_complete_args (record { one_fs = false })))
          (reclaim_complete_result ∷ []) new_reclaim_complete_res
    if res.status == nfs4err_complete_already then pure tt else check res.status

  unfoldable pub set_client_id_with : Bytes → Action W (Unit {0})
  set_client_id_with verifier = do
    (_, res) ←
        call env
          (λ c. add (compound c) (
            setclientid_args (record {
              verifier = verifier;
              id = client_name c;
              callback_prog = 0;
              callback_net_id = tcp;
              callback_addr = no_callback_addr;
              callback_ident = 0;
            })))
          (setclientid_result ∷ []) new_setclientid_res
    check res.status
    modify (λ c. record c { client_id = res.client_id; confirm = res.confirm })

  unfoldable pub set_client_id : Action W (Unit {0})
  set_client_id = do verifier ← new_verifier; set_client_id_with verifier

  unfoldable pub confirm_client_id : Action W (Unit {0})
  confirm_client_id = do
    (_, res) ←
        call env
          (λ c.
            add (compound c)
              (setclientid_confirm_args (record { client_id = c.client_id; verifier = c.confirm })))
          (status_result ∷ []) new_status_res
    check res.status

  unfoldable pub fetch_root_fh : Action W (Unit {0})
  fetch_root_fh = do
    (r, (put_res, get_res)) ←
        call env (λ c. add (add (compound c) putrootfh_args) getfh_args)
          (first status_result ∷ second getfh_result ∷ []) (new_status_res, new_getfh_res)
    check_result r
    check get_res.status
    modify (λ c. record c { root_fh = fetched_fh r get_res.fh })

  unfoldable pub mount_v41 : Action W (Unit {0})
  mount_v41 = do exchange_id; create_session; reclaim_complete; fetch_root_fh

  unfoldable pub mount : Action W (Unit {0})
  mount c =
      (if leb minor_v41 c.cfg.minor_version
          then mount_v41
          else (do set_client_id; confirm_client_id; fetch_root_fh))
        c

  -- The answers of both calls are dropped.
  unfoldable pub teardown_session : Conn → World W → World W
  teardown_session c w = elim c.session [
    | none ↦ w
    | some p ↦
        let base = without_session (without_retry c.caller) in
        let (_, _, w₁) =
          call_compound env base _
            (add (compound c) (destroy_session_args (record { session_id = (load p w).id })))
            (destroy_session_result ∷ []) new_destroy_session_res w in
        let (_, _, w₂) =
          call_compound env base _
            (add (compound c) (destroy_client_id_args (record { client_id = c.client_id })))
            (destroy_client_id_result ∷ []) new_destroy_client_id_res w₁ in
        w₂
  ]

  unfoldable pub close : Conn → World W → Option ℕ × World W
  close c w = let w' = teardown_session c w in if c.rpc then env.rpc_close w' else (none, w')

  unfoldable pub dial : ConnConfig → World W → Result Conn × World W
  dial cfg w =
      let (e, w₁) = env.rpc_dial w in
      elim e [
        | some n ↦ (err (other_error n), w₁)
        | none ↦
            let (r, c, w₂) = mount (new_conn rpc_caller cfg) w₁ in
            elim r [
              | ok _ ↦ (ok (record c { rpc = true }), w₂)
              | err x ↦ (err x, (env.rpc_close w₂).1)
              | panicked ↦ (panicked, w₂)
            ]
      ]

unfoldable pub is_minor_version_fallback : CallError → Bool
is_minor_version_fallback e =
    error_has_status e nfs4err_minor_vers_mismatch
    || (error_has_status e nfs4err_notsupp || error_has_status e nfs4err_op_illegal)

unfoldable pub dial_auto :
    {W : Type 0} → Environment W → ConnConfig → World W → Result Conn × World W
dial_auto env cfg w =
    let (r, w₁) = dial env (record cfg { minor_version = minor_v41 }) w in
    elim r [
      | ok c ↦ (ok c, w₁)
      | panicked ↦ (panicked, w₁)
      | err e ↦ elim (is_minor_version_fallback e) [
        | false ↦ (err e, w₁)
        | true ↦ dial env (record cfg { minor_version = minor_v40 }) w₁
      ]
    ]
