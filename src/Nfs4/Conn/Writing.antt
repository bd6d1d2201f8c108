-- ===== src/Nfs4/Conn/Writing.antt =====
-- nfs4/conn_write.go: the operations that open and change files.
use go_nfs_client.Prelude.{ℕ, zero, suc, ◌+◌, ◌/◌, ◌%◌, ◌^◌, Bool, [], ◌∷◌, if◌then◌else◌, ◌==◌}
use go_nfs_client.Xdr.Io.{Bytes}
use go_nfs_client.Nfs4.Types.{Bitmap, Stateid}
use go_nfs_client.Nfs4.Args.{
  putfh_args, getfh_args, open_args, open_confirm_args, write_args, commit_args, close_args,
  open4_create, open4_no_create,
}
use go_nfs_client.Nfs4.Results.{GetfhRes, OpenRes, needs_confirm}
use go_nfs_client.Nfs4.Compound.{add}
use go_nfs_client.Nfs4.Conn.Stack.{Environment}
use go_nfs_client.Nfs4.Conn.Action.{
  Conn, ok, Action, pure, ◌>>=◌, ◌>>◌, check, check_result, compound, call,
}
use go_nfs_client.Nfs4.Conn.Zero.{
  first, second, new_status_res, status_result, new_getfh_res, getfh_result, new_open_res,
  open_result, new_open_confirm_res, open_confirm_result, new_write_res, write_result,
  new_commit_res, commit_result, new_close_res, close_result,
}

abbrev pub create_unchecked : ℕ
create_unchecked = 0

abbrev pub create_guarded : ℕ
create_guarded = 1

abbrev pub open_share_deny_none : ℕ
open_share_deny_none = 0

pub record OpenResult : Type 0 where
  pub fh : Bytes
  pub stateid : Stateid

-- `uint32(atomic.AddUint32(&c.openSeqid, 1))`
unfoldable pub next_seqid : {W : Type 0} → Action W ℕ
next_seqid c w = let n = (c.open_seqid + 1) % 2 ^ 32 in (ok n, record c { open_seqid = n }, w)

-- The last digits of a number in decimal notation, without leading zeros, before `tail`. A uint64
-- has 20 digits at most.
unfoldable pub decimal : ℕ → ℕ → Bytes → Bytes
decimal zero n tail = tail
decimal (suc digits) n tail =
    let longer = decimal digits (n / 10) ((48 + n % 10) ∷ tail) in
    if n / 10 == 0 then (48 + n % 10) ∷ tail else longer

-- "go-nfs-owner-%d"
unfoldable pub owner_id : Conn → Bytes
owner_id c =
    103
    ∷ 111
    ∷ 45
    ∷ 110
    ∷ 102
    ∷ 115
    ∷ 45
    ∷ 111
    ∷ 119
    ∷ 110
    ∷ 101
    ∷ 114
    ∷ 45
    ∷ decimal 20 c.client_id []

module _ {W : Type 0} (env : Environment W) where
  unfoldable pub open_confirm_seqid : Bytes → Stateid → ℕ → Action W Stateid
  open_confirm_seqid fh sid seqid = do
    (r, (put_res, oc_res)) ←
        call env
          (λ c.
            add (add (compound c) (putfh_args (record { fh = fh })))
              (open_confirm_args (record { stateid = sid; seqid = seqid })))
          (first status_result ∷ second open_confirm_result ∷ [])
          (new_status_res, new_open_confirm_res)
    check_result r
    check oc_res.status
    pure oc_res.stateid

  unfoldable pub open_confirm : Bytes → Stateid → Action W Stateid
  open_confirm fh sid = do seqid ← next_seqid; open_confirm_seqid fh sid seqid

  -- What follows an OPEN that succeeded.
  unfoldable pub opened : OpenRes → GetfhRes → Action W OpenResult
  opened open_res get_res =
      if needs_confirm open_res
      then (do
        confirmed ← open_confirm get_res.fh open_res.stateid
        pure (record { fh = get_res.fh; stateid = confirmed }))
      else pure (record { fh = get_res.fh; stateid = open_res.stateid })

  unfoldable pub open_file_seqid :
      Bytes → Bytes → ℕ → Bitmap → Bytes → Bool → Bool → ℕ → Action W OpenResult
  open_file_seqid dir name share create_attr_mask create_attr_vals do_create excl seqid = do
    (r, (put_res, (open_res, get_res))) ←
        call env
          (λ c.
            add
              (add (add (compound c) (putfh_args (record { fh = dir }))) (
                open_args (record {
                  seqid = seqid;
                  share_access = share;
                  share_deny = open_share_deny_none;
                  client_id = c.client_id;
                  owner = owner_id c;
                  open_type = if do_create then open4_create else open4_no_create;
                  create_mode =
                      if do_create then (if excl then create_guarded else create_unchecked) else 0;
                  create_attr_mask = if do_create then create_attr_mask else [];
                  create_attr_vals = if do_create then create_attr_vals else [];
                  create_verf = 0 ∷ 0 ∷ 0 ∷ 0 ∷ 0 ∷ 0 ∷ 0 ∷ 0 ∷ [];
                  name = name;
                })))
              getfh_args)
          (first status_result ∷ second (first open_result) ∷ second (second getfh_result) ∷ [])
          (new_status_res, (new_open_res, new_getfh_res))
    check_result r
    check open_res.status
    opened open_res get_res

  unfoldable pub open_file : Bytes → Bytes → ℕ → Bitmap → Bytes → Bool → Bool → Action W OpenResult
  open_file dir name share create_attr_mask create_attr_vals do_create excl = do
    seqid ← next_seqid
    open_file_seqid dir name share create_attr_mask create_attr_vals do_create excl seqid

  unfoldable pub write : Bytes → Stateid → ℕ → Bytes → ℕ → Action W (ℕ × ℕ)
  write fh sid offset contents stable = do
    (r, (put_res, w_res)) ←
        call env
          (λ c. add (add (compound c) (putfh_args (record { fh = fh }))) (
            write_args
              (record { stateid = sid; offset = offset; stable = stable; contents = contents })))
          (first status_result ∷ second write_result ∷ []) (new_status_res, new_write_res)
    check_result r
    check w_res.status
    pure (w_res.count, w_res.committed)

  unfoldable pub commit : Bytes → ℕ → ℕ → Action W (Unit {0})
  commit fh offset count = do
    (r, (put_res, c_res)) ←
        call env
          (λ c.
            add (add (compound c) (putfh_args (record { fh = fh })))
              (commit_args (record { offset = offset; count = count })))
          (first status_result ∷ second commit_result ∷ []) (new_status_res, new_commit_res)
    check_result r
    check c_res.status

  unfoldable pub close_file_seqid : Bytes → Stateid → ℕ → Action W (Unit {0})
  close_file_seqid fh sid seqid = do
    (r, (put_res, cl_res)) ←
        call env
          (λ c.
            add (add (compound c) (putfh_args (record { fh = fh })))
              (close_args (record { seqid = seqid; stateid = sid })))
          (first status_result ∷ second close_result ∷ []) (new_status_res, new_close_res)
    check_result r
    check cl_res.status

  unfoldable pub close_file : Bytes → Stateid → Action W (Unit {0})
  close_file fh sid = do seqid ← next_seqid; close_file_seqid fh sid seqid
