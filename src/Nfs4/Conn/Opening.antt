-- ===== src/Nfs4/Conn/Opening.antt =====
-- Open, with and without OPEN_CONFIRM.
use go_nfs_client.Prelude.{
  ℕ, ◌+◌, ◌%◌, ◌^◌, ◌≡◌, refl, Bool, true, false, List, [], ◌∷◌, inl, inr, arith, if◌then◌else◌,
}
use go_nfs_client.Xdr.Io.{Bytes}
use go_nfs_client.Nfs4.Types.{Bitmap, Stateid, nfs4_ok, U32, Small, FitsStateid, FitsBitmap}
use go_nfs_client.Nfs4.Opnums.{op_putfh, op_getfh, op_open, op_open_confirm}
use go_nfs_client.Nfs4.Args.{
  putfh_args, getfh_args, open_args, open_confirm_args, open4_create, open4_no_create,
}
use go_nfs_client.Nfs4.Results.{OpenRes, needs_confirm}
use go_nfs_client.Nfs4.Replies.Ops.{put_getfh_res, getfh_res-Codec}
use go_nfs_client.Nfs4.Replies.WriteOps.{put_open_confirm_res, open_confirm_res-Codec}
use go_nfs_client.Nfs4.Replies.Changes.{ChangeInfo, FitsChangeInfo}
use go_nfs_client.Nfs4.Replies.Opens.{Delegation, FitsDelegation, put_open_res, open_res-Codec}
use go_nfs_client.Nfs4.Compound.{Compound, new_compound, add}
use go_nfs_client.Nfs4.Compound.Replies.{Resop, Answers, stop, next}
use go_nfs_client.Nfs4.Caller.{status_err}
use go_nfs_client.Nfs4.Conn.Stack.{World, Environment}
use go_nfs_client.Nfs4.Conn.Action.{Conn, ok, check, check_result, compound}
use go_nfs_client.Nfs4.Conn.Zero.{
  first, second, new_status_res, status_result, new_getfh_res, getfh_result, new_open_res,
  open_result, new_open_confirm_res, open_confirm_result,
}
use go_nfs_client.Nfs4.Conn.Writing.{
  create_unchecked, create_guarded, open_share_deny_none, next_seqid, owner_id, open_confirm,
  open_confirm_seqid, opened, open_file, open_file_seqid,
}
use go_nfs_client.Nfs4.Conn.Carried.{Carried}
use go_nfs_client.Nfs4.Conn.Walks.{
  requested, first-Codec, second-Codec, status-Codec, call-Carried, status_resop,
}

-- The connection after `n` more seqids.
abbrev pub with_seqid : ℕ → Conn → Conn
with_seqid n c = record c { open_seqid = n }

abbrev pub seqid_after : Conn → ℕ
seqid_after c = (c.open_seqid + 1) % 2 ^ 32

-- What a server answers to an OPEN that succeeds: the result, the change_info4 and a delegation.
pub record Opened : Type 0 where
  pub res : OpenRes
  pub cinfo : ChangeInfo
  pub deleg : Delegation
  pub fh : Bytes

pub record FitsOpened (a : Opened) : Type 0 where
  pub stateid_fits : FitsStateid a.res.stateid
  pub cinfo_fits : FitsChangeInfo a.cinfo
  pub rflags_fits : U32 a.res.rflags
  pub attr_set_fits : FitsBitmap a.res.attr_set
  pub deleg_fits : FitsDelegation a.deleg
  pub fh_fits : Small a.fh

abbrev pub open_ok : OpenRes → OpenRes
open_ok a = record a { status = nfs4_ok }

abbrev pub open_resops : Opened → List Resop
open_resops a =
    status_resop op_putfh nfs4_ok
    ∷ record { op = op_open; body = put_open_res (open_ok a.res) a.cinfo a.deleg }
    ∷ record { op = op_getfh; body = put_getfh_res (record { status = nfs4_ok; fh = a.fh }) }
    ∷ []

abbrev pub confirm_resops : Stateid → List Resop
confirm_resops sid =
    status_resop op_putfh nfs4_ok
    ∷ record {
      op = op_open_confirm;
      body = put_open_confirm_res (record { status = nfs4_ok; stateid = sid });
    }
    ∷ []

open-Answers :
    (a : Opened)
    → FitsOpened a
    → Answers
        (first status_result ∷ second (first open_result) ∷ second (second getfh_result) ∷ [])
        (open_resops a)
        (new_status_res, (new_open_res, new_getfh_res))
        (new_status_res, (open_ok a.res, record { status = nfs4_ok; fh = a.fh }))
unfolding first second status_result open_result getfh_result
open-Answers a h =
    next (inl refl) (omega arith)
      (first-Codec status_result _ _ _ (status-Codec nfs4_ok new_status_res (omega arith)))
      (next (inr refl) (omega arith)
        (second-Codec (first open_result) _ _ _ (
          first-Codec open_result _ _ _ (
            open_res-Codec (open_ok a.res) new_open_res a.cinfo a.deleg (omega arith) h.stateid_fits
              h.cinfo_fits h.rflags_fits h.attr_set_fits h.deleg_fits)))
        (next (inr refl) (omega arith)
          (second-Codec (second getfh_result) _ _ _ (
            second-Codec getfh_result _ _ _ (
              getfh_res-Codec (record { status = nfs4_ok; fh = a.fh }) new_getfh_res (omega arith)
                h.fh_fits)))
          stop))

confirm-Answers :
    (sid : Stateid)
    → FitsStateid sid
    → Answers
        (first status_result ∷ second open_confirm_result ∷ [])
        (confirm_resops sid)
        (new_status_res, new_open_confirm_res)
        (new_status_res, record { status = nfs4_ok; stateid = sid })
unfolding first second status_result open_confirm_result
confirm-Answers sid h =
    next (inl refl) (omega arith)
      (first-Codec status_result _ _ _ (status-Codec nfs4_ok new_status_res (omega arith)))
      (next (inr refl) (omega arith)
        (second-Codec open_confirm_result _ _ _ (
          open_confirm_res-Codec (record { status = nfs4_ok; stateid = sid }) new_open_confirm_res
            (omega arith) h))
        stop)

abbrev pub confirm_request : Conn → Bytes → Stateid → ℕ → Compound
confirm_request c fh sid seqid = requested c (
    putfh_args (record { fh = fh })
    ∷ open_confirm_args (record { stateid = sid; seqid = seqid })
    ∷ [])

module _ {W : Type 0} (env : Environment W) where
  open_confirm-Carried :
      (fh : Bytes) (sid sid' : Stateid) (c : Conn) (w w' : World W)
      → FitsStateid sid'
      → Carried env c.caller
          (confirm_request c fh sid (seqid_after c))
          w
          nfs4_ok
          (confirm_resops sid')
          w'
      → open_confirm env fh sid c w ≡ (ok sid', with_seqid (seqid_after c) c, w')
  unfolding open_confirm open_confirm_seqid next_seqid compound new_compound add check check_result
      status_err
  open_confirm-Carried fh sid sid' c w w' hf h =
      let e =
        call-Carried env (λ c'. confirm_request c' fh sid (seqid_after c)) _ _ _
          (with_seqid (seqid_after c) c) w w' nfs4_ok (confirm_resops sid') h
          (confirm-Answers sid' hf) in
      ground (arith, e)

module _ {W : Type 0} (env : Environment W) (dir name : Bytes) (share : ℕ) (mask : Bitmap)
    (vals : Bytes) (do_create excl : Bool) where
  -- The request of an Open, with its seqid.
  abbrev pub open_request : Conn → ℕ → Compound
  open_request c seqid = requested c (
      putfh_args (record { fh = dir })
      ∷ open_args (record {
        seqid = seqid;
        share_access = share;
        share_deny = open_share_deny_none;
        client_id = c.client_id;
        owner = owner_id c;
        open_type = if do_create then open4_create else open4_no_create;
        create_mode = if do_create then (if excl then create_guarded else create_unchecked) else 0;
        create_attr_mask = if do_create then mask else [];
        create_attr_vals = if do_create then vals else [];
        create_verf = 0 ∷ 0 ∷ 0 ∷ 0 ∷ 0 ∷ 0 ∷ 0 ∷ 0 ∷ [];
        name = name;
      })
      ∷ getfh_args
      ∷ [])

  -- Where the server answers OPEN with a handle and a stateid, asks for confirmation, and answers
  -- OPEN_CONFIRM of that stateid with success, Open returns that handle and the stateid of the
  -- OPEN_CONFIRM, having used the two seqids that follow the connection's, modulo 2^32, one for
  -- each request, and the connection is left as it was but for its seqid, if the server's values
  -- have their sizes.
  pub open_file-confirmed :
      (a : Opened) (sid : Stateid) (c : Conn) (w w₁ w₂ : World W)
      → FitsOpened a
      → FitsStateid sid
      → needs_confirm a.res ≡ true
      → let first_id = seqid_after c in
        let second_id = (first_id + 1) % 2 ^ 32 in
        let c₁ = with_seqid first_id c in
        Carried env c.caller (open_request c₁ first_id) w nfs4_ok (open_resops a) w₁
        → Carried env c.caller
            (confirm_request c₁ a.fh a.res.stateid second_id)
            w₁
            nfs4_ok
            (confirm_resops sid)
            w₂
        → open_file env dir name share mask vals do_create excl c w
          ≡ (ok (record { fh = a.fh; stateid = sid }), with_seqid second_id c, w₂)
  unfolding open_file open_file_seqid opened next_seqid compound new_compound add check check_result
      status_err needs_confirm
  open_file-confirmed a sid c w w₁ w₂ fits hs hc h k =
      let first_id = seqid_after c in
      let c₁ = with_seqid first_id c in
      let e =
        call-Carried env (λ c'. open_request c' first_id) _ _ _ c₁ w w₁ nfs4_ok (open_resops a) h
          (open-Answers a fits) in
      let confirmed = open_confirm-Carried env a.fh a.res.stateid sid c₁ w₁ w₂ hs k in
      ground (arith, e, confirmed, hc)

  -- The same without the flag: one request only.
  open_file-unconfirmed :
      (a : Opened) (c : Conn) (w w' : World W)
      → FitsOpened a
      → needs_confirm a.res ≡ false
      → Carried env c.caller
          (open_request (with_seqid (seqid_after c) c) (seqid_after c))
          w
          nfs4_ok
          (open_resops a)
          w'
      → open_file env dir name share mask vals do_create excl c w
        ≡ (ok (record { fh = a.fh; stateid = a.res.stateid }), with_seqid (seqid_after c) c, w')
  unfolding open_file open_file_seqid opened next_seqid compound new_compound add check check_result
      status_err needs_confirm
  open_file-unconfirmed a c w w' fits hc h =
      let first_id = seqid_after c in
      let c₁ = with_seqid first_id c in
      let e =
        call-Carried env (λ c'. open_request c' first_id) _ _ _ c₁ w w' nfs4_ok (open_resops a) h
          (open-Answers a fits) in
      ground (arith, e, hc)
