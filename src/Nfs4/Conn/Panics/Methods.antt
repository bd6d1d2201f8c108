-- ===== src/Nfs4/Conn/Panics/Methods.antt =====
-- No method of a connection calls Err on a nil result.
use go_nfs_client.Prelude.{ℕ, Bool, Bool-cases, inl, inr, some, List, [], ◌∷◌, arith}
use go_nfs_client.Xdr.Io.{Bytes}
use go_nfs_client.Nfs4.Types.{Bitmap, Stateid}
use go_nfs_client.Nfs4.Args.{CreateArgs}
use go_nfs_client.Nfs4.Results.{GetfhRes, OpenRes, needs_confirm}
use go_nfs_client.Nfs4.Conn.Stack.{Environment}
use go_nfs_client.Nfs4.Conn.Action.{pure, ◌>>=◌, check, check_result}
use go_nfs_client.Nfs4.Conn.Reading.{
  lookup, get_attr, read, readdir, readlink, is_skipped, lookup_components,
}
use go_nfs_client.Nfs4.Conn.Writing.{
  next_seqid, open_confirm, open_confirm_seqid, opened, open_file, open_file_seqid, write, commit,
  close_file, close_file_seqid,
}
use go_nfs_client.Nfs4.Conn.Names.{create, remove, rename, link, set_attr}
use go_nfs_client.Nfs4.Conn.Speaks.{Decodes}
use go_nfs_client.Nfs4.Conn.Panics.{
  Safe, pure-Safe, check-Safe, check_result-Safe, bind-Safe, call-Safe, value-Safe, status-Safe,
}

module _ {W : Type 0} (env : Environment W) (h : Decodes env) where
  pub lookup-Safe : (dir name : Bytes) → Safe (lookup env dir name)
  unfolding lookup
  lookup-Safe dir name = value-Safe env h _ _ _ (λ t. t.1.1.status) (λ t. t.1.1.fh)

  pub get_attr-Safe : (fh : Bytes) (mask : Bitmap) → Safe (get_attr env fh mask)
  unfolding get_attr
  get_attr-Safe fh mask =
      value-Safe env h _ _ _ (λ t. t.1.status) (λ t. (t.1.attr_mask, t.1.attr_vals))

  pub read-Safe : (fh : Bytes) (offset count : ℕ) → Safe (read env fh offset count)
  unfolding read
  read-Safe fh offset count =
      value-Safe env h _ _ _ (λ t. t.1.status) (λ t. (t.1.contents, t.1.eof))

  pub readdir-Safe :
      (dir : Bytes) (cookie : ℕ) (verf : Bytes) (mask : Bitmap)
      → Safe (readdir env dir cookie verf mask)
  unfolding readdir
  readdir-Safe dir cookie verf mask = value-Safe env h _ _ _ (λ t. t.1.status) (λ t. t.1)

  pub readlink-Safe : (fh : Bytes) → Safe (readlink env fh)
  unfolding readlink
  readlink-Safe fh = value-Safe env h _ _ _ (λ t. t.1.status) (λ t. t.1.link)

  pub write-Safe :
      (fh : Bytes) (sid : Stateid) (offset : ℕ) (p : Bytes) (stable : ℕ)
      → Safe (write env fh sid offset p stable)
  unfolding write
  write-Safe fh sid offset p stable =
      value-Safe env h _ _ _ (λ t. t.1.status) (λ t. (t.1.count, t.1.committed))

  pub create-Safe : (dir : Bytes) (args : CreateArgs) → Safe (create env dir args)
  unfolding create
  create-Safe dir args = value-Safe env h _ _ _ (λ t. t.1.0.status) (λ t. t.1.1.fh)

  pub commit-Safe : (fh : Bytes) (offset count : ℕ) → Safe (commit env fh offset count)
  unfolding commit
  commit-Safe fh offset count = status-Safe env h _ _ _ (λ t. t.1.status)

  pub remove-Safe : (dir name : Bytes) → Safe (remove env dir name)
  unfolding remove
  remove-Safe dir name = status-Safe env h _ _ _ (λ t. t.1.status)

  pub rename-Safe : (src old dst new : Bytes) → Safe (rename env src old dst new)
  unfolding rename
  rename-Safe src old dst new = status-Safe env h _ _ _ (λ t. t.1.1.1.status)

  pub link-Safe : (src dst name : Bytes) → Safe (link env src dst name)
  unfolding link
  link-Safe src dst name = status-Safe env h _ _ _ (λ t. t.1.1.1.status)

  pub set_attr-Safe :
      (fh : Bytes) (sid : Stateid) (mask : Bitmap) (vals : Bytes)
      → Safe (set_attr env fh sid mask vals)
  unfolding set_attr
  set_attr-Safe fh sid mask vals = status-Safe env h _ _ _ (λ t. t.1.status)

  pub next_seqid-Safe : Safe {W = W} next_seqid
  unfolding next_seqid
  next_seqid-Safe = record { never = λ c w p. ground arith }

  pub open_confirm_seqid-Safe :
      (fh : Bytes) (sid : Stateid) (n : ℕ) → Safe (open_confirm_seqid env fh sid n)
  unfolding open_confirm_seqid
  open_confirm_seqid-Safe fh sid n = value-Safe env h _ _ _ (λ t. t.1.status) (λ t. t.1.stateid)

  pub open_confirm-Safe : (fh : Bytes) (sid : Stateid) → Safe (open_confirm env fh sid)
  unfolding open_confirm
  open_confirm-Safe fh sid =
      bind-Safe next_seqid (open_confirm_seqid env fh sid) next_seqid-Safe
        (open_confirm_seqid-Safe fh sid)

  pub opened-Safe : (a : OpenRes) (b : GetfhRes) → Safe (opened env a b)
  unfolding opened
  opened-Safe a b = elim (Bool-cases (needs_confirm a)) [
    | inr e ↦ rw e (pure-Safe (record { fh = b.fh; stateid = a.stateid }))
    | inl e ↦ rw e (
        bind-Safe (open_confirm env b.fh a.stateid)
          (λ sid. pure (record { fh = b.fh; stateid = sid })) (open_confirm-Safe b.fh a.stateid)
          (λ sid. pure-Safe (record { fh = b.fh; stateid = sid })))
  ]

  pub open_file_seqid-Safe :
      (dir name : Bytes) (share : ℕ) (mask : Bitmap) (vals : Bytes) (do_create excl : Bool) (n : ℕ)
      → Safe (open_file_seqid env dir name share mask vals do_create excl n)
  unfolding open_file_seqid
  open_file_seqid-Safe dir name share mask vals do_create excl n =
      call-Safe env h _ _ _
        (λ x. check_result x.0 >>= λ _. check x.1.1.0.status >>= λ _. opened env x.1.1.0 x.1.1.1)
        (λ r t.
          bind-Safe (check_result (some r))
            (λ _. check t.1.0.status >>= λ _. opened env t.1.0 t.1.1) (check_result-Safe r)
            (λ _.
              bind-Safe (check t.1.0.status) (λ _. opened env t.1.0 t.1.1) (check-Safe t.1.0.status)
                (λ _. opened-Safe t.1.0 t.1.1)))

  pub open_file-Safe :
      (dir name : Bytes) (share : ℕ) (mask : Bitmap) (vals : Bytes) (do_create excl : Bool)
      → Safe (open_file env dir name share mask vals do_create excl)
  unfolding open_file
  open_file-Safe dir name share mask vals do_create excl =
      bind-Safe next_seqid (open_file_seqid env dir name share mask vals do_create excl)
        next_seqid-Safe (open_file_seqid-Safe dir name share mask vals do_create excl)

  pub close_file_seqid-Safe :
      (fh : Bytes) (sid : Stateid) (n : ℕ) → Safe (close_file_seqid env fh sid n)
  unfolding close_file_seqid
  close_file_seqid-Safe fh sid n = status-Safe env h _ _ _ (λ t. t.1.status)

  pub close_file-Safe : (fh : Bytes) (sid : Stateid) → Safe (close_file env fh sid)
  unfolding close_file
  close_file-Safe fh sid =
      bind-Safe next_seqid (close_file_seqid env fh sid) next_seqid-Safe
        (close_file_seqid-Safe fh sid)

  pub lookup_components-Safe :
      (components : List Bytes) (cur : Bytes) → Safe (lookup_components env cur components)
  unfolding lookup_components
  lookup_components-Safe [] cur = pure-Safe cur
  lookup_components-Safe (comp ∷ components) cur = elim (Bool-cases (is_skipped comp)) [
    | inl e ↦ rw (lookup_components, e) (lookup_components-Safe components cur)
    | inr e ↦
        rw (lookup_components, e)
          (bind-Safe (lookup env cur comp) (λ fh. lookup_components env fh components)
            (lookup-Safe cur comp) (lookup_components-Safe components))
  ]
