-- ===== src/Nfs4/Conn/Mounting.antt =====
-- Mount for NFSv4.0, and what a fallback of DialAuto says about the server.
pub mod Grants
pub mod V41
use go_nfs_client.Prelude.{
  ℕ, ◌+◌, ◌≡◌, ◌≢◌, refl, ap, ◌∙◌, Bool, true, false, leb, Option, some, none, List, [], ◌∷◌, ◌⊎◌,
  inl, inr, length, arith, ◌==◌, if◌then◌else◌,
}
use go_nfs_client.Xdr.Io.{Bytes}
use go_nfs_client.Xdr.Encoder
use go_nfs_client.Xdr.Encoder.{Put}
use go_nfs_client.Xdr.Codec.{Codec}
use go_nfs_client.Nfs4.Types.{nfs4_ok, U32, U64, Small, Array}
use go_nfs_client.Nfs4.Opnums.{op_putrootfh, op_getfh, op_setclientid, op_setclientid_confirm}
use go_nfs_client.Nfs4.Args.{
  Arg, setclientid_args, setclientid_confirm_args, putrootfh_args, getfh_args,
}
use go_nfs_client.Nfs4.Results.{StatusRes, GetfhRes, SetclientidRes}
use go_nfs_client.Nfs4.Replies.Ops.{
  put_getfh_res, getfh_res-Codec, put_setclientid_res, setclientid_res-Codec,
}
use go_nfs_client.Nfs4.Compound.{Compound, Res, new_compound, add}
use go_nfs_client.Nfs4.Compound.Replies.{Resop, Answers, stop, next}
use go_nfs_client.Nfs4.Caller.{status_err}
use go_nfs_client.Nfs4.Conn.Stack.{World, Environment, Random, rand_bytes}
use go_nfs_client.Nfs4.Conn.Action.{Conn, ok, check, check_result, compound}
use go_nfs_client.Nfs4.Conn.Zero.{
  first, second, new_status_res, status_result, new_getfh_res, getfh_result, new_setclientid_res,
  setclientid_result,
}
use go_nfs_client.Nfs4.Conn.Bootstrap.{
  minor_v41, tcp, no_callback_addr, client_name, new_verifier, set_client_id, set_client_id_with,
  confirm_client_id, fetch_root_fh, mount, fetched_fh,
}
use go_nfs_client.Nfs4.Conn.Carried.{Carried}
use go_nfs_client.Nfs4.Conn.Walks.{
  requested, first-Codec, second-Codec, status-Codec, call-Carried, status_resop,
}

-- A call with one result.
pub one-Answers :
    {S : Type 0} (r : Res S) (op : ℕ) (body : Put) (s s' : S)
    → (r.op ≡ 0) ⊎ (r.op ≡ op)
    → U32 op
    → Codec body (r.decode_res s) s'
    → Answers (r ∷ []) (record { op = op; body = body } ∷ []) s s'
one-Answers r op body s s' e u h = next e u h stop

-- The replies to PUTROOTFH and GETFH.
abbrev pub root_resops : Bytes → List Resop
root_resops fh =
    status_resop op_putrootfh nfs4_ok
    ∷ record { op = op_getfh; body = put_getfh_res (record { status = nfs4_ok; fh = fh }) }
    ∷ []

abbrev pub granted : ℕ → Bytes → SetclientidRes
granted client_id confirm = record {
  status = nfs4_ok;
  client_id = client_id;
  confirm = confirm;
  client_using_net_id = [];
  client_using_addr = [];
}

-- The reply to SETCLIENTID.
abbrev pub setclientid_resops : ℕ → Bytes → List Resop
setclientid_resops client_id confirm =
    record { op = op_setclientid; body = put_setclientid_res (granted client_id confirm) } ∷ []

root-Answers :
    (fh : Bytes)
    → Small fh
    → Answers
        (first status_result ∷ second getfh_result ∷ [])
        (root_resops fh)
        (new_status_res, new_getfh_res)
        (new_status_res, record { status = nfs4_ok; fh = fh })
unfolding first second status_result getfh_result
root-Answers fh h =
    next (inl refl) (omega arith)
      (first-Codec status_result _ _ _ (status-Codec nfs4_ok new_status_res (omega arith)))
      (next (inr refl) (omega arith)
        (second-Codec getfh_result _ _ _
          (getfh_res-Codec (record { status = nfs4_ok; fh = fh }) new_getfh_res (omega arith) h))
        stop)

module _ {W : Type 0} (env : Environment W) where
  -- The last step of both ways to mount.
  pub fetch_root_fh-Carried :
      (c : Conn) (w w' : World W) (fh : Bytes)
      → Small fh
      → Carried env c.caller
          (requested c (putrootfh_args ∷ getfh_args ∷ []))
          w
          nfs4_ok
          (root_resops fh)
          w'
      → fetch_root_fh env c w ≡ (ok tt, record c { root_fh = some fh }, w')
  unfolding fetch_root_fh fetched_fh compound new_compound add check check_result status_err
  fetch_root_fh-Carried c w w' fh hf h =
      let e =
        call-Carried env (λ c. requested c (putrootfh_args ∷ getfh_args ∷ [])) _ _ _ c w w' nfs4_ok
          (root_resops fh) h (root-Answers fh hf) in
      ground (arith, e)

  abbrev setclientid_request : Conn → Bytes → Compound
  setclientid_request c verifier = requested c (
      setclientid_args (record {
        verifier = verifier;
        id = client_name env c;
        callback_prog = 0;
        callback_net_id = tcp;
        callback_addr = no_callback_addr;
        callback_ident = 0;
      })
      ∷ [])

  abbrev confirm_request : Conn → ℕ → Bytes → Compound
  confirm_request c client_id confirm =
      requested c
        (setclientid_confirm_args (record { client_id = client_id; verifier = confirm }) ∷ [])

  set_client_id-Carried :
      (c : Conn) (w w₁ w₂ : World W) (verifier : Bytes) (client_id : ℕ) (confirm : Bytes)
      → env.rand w ≡ (rand_bytes verifier, w₁)
      → U64 client_id
      → Array 8 confirm
      → Carried env c.caller
          (setclientid_request c verifier)
          w₁
          nfs4_ok
          (setclientid_resops client_id confirm)
          w₂
      → set_client_id env c w ≡ (ok tt, record c { client_id = client_id; confirm = confirm }, w₂)
  unfolding set_client_id set_client_id_with new_verifier compound new_compound add check status_err
      setclientid_result
  set_client_id-Carried c w w₁ w₂ verifier client_id confirm hr hi hc h =
      let a =
        one-Answers setclientid_result _ _ new_setclientid_res (granted client_id confirm)
          (inr refl) (omega arith)
          (setclientid_res-Codec (granted client_id confirm) new_setclientid_res (omega arith) hi hc
            refl (omega arith) (omega arith)) in
      let e = call-Carried env (λ c. setclientid_request c verifier) _ _ _ c w₁ w₂ nfs4_ok _ h a in
      ground (arith, hr, e)

  confirm_client_id-Carried :
      (c : Conn) (w w' : World W)
      → Carried env c.caller
          (confirm_request c c.client_id c.confirm)
          w
          nfs4_ok
          (status_resop op_setclientid_confirm nfs4_ok ∷ [])
          w'
      → confirm_client_id env c w ≡ (ok tt, c, w')
  unfolding confirm_client_id compound new_compound add check status_err status_result
  confirm_client_id-Carried c w w' h =
      let a : Answers (status_result ∷ []) (status_resop op_setclientid_confirm nfs4_ok ∷ [])
          new_status_res (record { status = nfs4_ok }) =
        one-Answers status_result _ _ new_status_res (record { status = nfs4_ok }) (inl refl)
          (omega arith) (status-Codec nfs4_ok new_status_res (omega arith)) in
      let e =
        call-Carried env (λ c. confirm_request c c.client_id c.confirm) _ _ _ c w w' nfs4_ok _ h
          a in
      ground (arith, e)

  -- Where the server answers SETCLIENTID with a client id and a verifier, SETCLIENTID_CONFIRM of
  -- these two and then the lookup of the root handle with success, Mount on a connection
  -- configured for a minor version below 1 returns no error and leaves the connection with that
  -- client id, that verifier and the root handle, and otherwise as it was, if crypto/rand gives a
  -- verifier and the server's values have their sizes.
  pub mount-v40 :
      (c : Conn) (w w₁ w₂ w₃ w₄ : World W) (verifier confirm fh : Bytes) (client_id : ℕ)
      → leb minor_v41 c.cfg.minor_version ≡ false
      → env.rand w ≡ (rand_bytes verifier, w₁)
      → U64 client_id
      → Array 8 confirm
      → Small fh
      → Carried env c.caller
          (setclientid_request c verifier)
          w₁
          nfs4_ok
          (setclientid_resops client_id confirm)
          w₂
      → Carried env c.caller
          (confirm_request c client_id confirm)
          w₂
          nfs4_ok
          (status_resop op_setclientid_confirm nfs4_ok ∷ [])
          w₃
      → Carried env c.caller
          (requested c (putrootfh_args ∷ getfh_args ∷ []))
          w₃
          nfs4_ok
          (root_resops fh)
          w₄
      → mount env c w
        ≡ (ok tt, record c { client_id = client_id; confirm = confirm; root_fh = some fh }, w₄)
  unfolding mount
  mount-v40 c w w₁ w₂ w₃ w₄ verifier confirm fh client_id minor hr hi hc hf hs hk hg =
      let c' = record c { client_id = client_id; confirm = confirm } in
      let set = set_client_id-Carried c w w₁ w₂ verifier client_id confirm hr hi hc hs in
      let confirmed = confirm_client_id-Carried c' w₂ w₃ hk in
      let fetched = fetch_root_fh-Carried c' w₃ w₄ fh hf hg in
      ground (arith, minor, set, confirmed, fetched)
