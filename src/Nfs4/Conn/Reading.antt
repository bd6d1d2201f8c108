-- ===== src/Nfs4/Conn/Reading.antt =====
-- nfs4/conn.go: the operations that read.
use go_nfs_client.Prelude.{ℕ, Bool, false, some, none, List, [], ◌∷◌}
use go_nfs_client.Prelude.{◌==◌}
use go_nfs_client.Xdr.Io.{Bytes}
use go_nfs_client.Nfs4.Types.{Bitmap, new_stateid}
use go_nfs_client.Nfs4.Args.{
  putfh_args, lookup_args, getfh_args, getattr_args, read_args, readdir_args, readlink_args,
  renew_args,
}
use go_nfs_client.Nfs4.Results.{ReaddirRes}
use go_nfs_client.Nfs4.Compound.{add}
use go_nfs_client.Nfs4.Caller.{other_error}
use go_nfs_client.Nfs4.Conn.Stack.{Environment}
use go_nfs_client.Nfs4.Conn.Action.{
  Action, pure, raise, gets, ◌>>=◌, ◌>>◌, check, check_result, compound, call,
}
use go_nfs_client.Nfs4.Conn.Zero.{
  first, second, new_status_res, status_result, new_getfh_res, getfh_result, new_getattr_res,
  getattr_result, new_read_res, read_result, new_readdir_res, readdir_result, new_readlink_res,
  readlink_result,
}

-- The error of LookupPath on a connection that is not mounted.
abbrev pub not_mounted : ℕ
not_mounted = 4

-- A component that LookupPath skips: "" or ".".
unfoldable pub is_skipped : Bytes → Bool
is_skipped [] = Bool.true
is_skipped (b ∷ []) = b == 46
is_skipped (b ∷ b' ∷ bs) = false

module _ {W : Type 0} (env : Environment W) where
  unfoldable pub lookup : Bytes → Bytes → Action W Bytes
  lookup dir name = do
    (r, (put_res, (lookup_res, get_res))) ←
        call env
          (λ c.
            add
              (add (add (compound c) (putfh_args (record { fh = dir })))
                (lookup_args (record { name = name })))
              getfh_args)
          (first status_result ∷ second (first status_result) ∷ second (second getfh_result) ∷ [])
          (new_status_res, (new_status_res, new_getfh_res))
    check_result r
    check get_res.status
    pure get_res.fh

  unfoldable pub get_attr : Bytes → Bitmap → Action W (Bitmap × Bytes)
  get_attr fh mask = do
    (r, (put_res, get_res)) ←
        call env
          (λ c.
            add (add (compound c) (putfh_args (record { fh = fh })))
              (getattr_args (record { attr_request = mask })))
          (first status_result ∷ second getattr_result ∷ []) (new_status_res, new_getattr_res)
    check_result r
    check get_res.status
    pure (get_res.attr_mask, get_res.attr_vals)

  -- The anonymous stateid is the zero value.
  unfoldable pub read : Bytes → ℕ → ℕ → Action W (Bytes × Bool)
  read fh offset count = do
    (r, (put_res, read_res)) ←
        call env
          (λ c.
            add (add (compound c) (putfh_args (record { fh = fh })))
              (read_args (record { stateid = new_stateid; offset = offset; count = count })))
          (first status_result ∷ second read_result ∷ []) (new_status_res, new_read_res)
    check_result r
    check read_res.status
    pure (read_res.contents, read_res.eof)

  unfoldable pub readdir : Bytes → ℕ → Bytes → Bitmap → Action W ReaddirRes
  readdir dir cookie cookieverf attr_mask = do
    (r, (put_res, dd_res)) ←
        call env
          (λ c. add (add (compound c) (putfh_args (record { fh = dir }))) (
            readdir_args (record {
              cookie = cookie;
              cookieverf = cookieverf;
              dircount = 8192;
              maxcount = 65536;
              attr_request = attr_mask;
            })))
          (first status_result ∷ second readdir_result ∷ []) (new_status_res, new_readdir_res)
    check_result r
    check dd_res.status
    pure dd_res

  unfoldable pub renew : Action W (Unit {0})
  renew = do
    id ← gets (λ c. c.client_id)
    (_, res) ←
        call env (λ c. add (compound c) (renew_args (record { client_id = id })))
          (status_result ∷ []) new_status_res
    check res.status

  unfoldable pub readlink : Bytes → Action W Bytes
  readlink fh = do
    (r, (put_res, rl_res)) ←
        call env (λ c. add (add (compound c) (putfh_args (record { fh = fh }))) readlink_args)
          (first status_result ∷ second readlink_result ∷ []) (new_status_res, new_readlink_res)
    check_result r
    check rl_res.status
    pure rl_res.link

  -- The loop of LookupPath, from `cur` on.
  unfoldable pub lookup_components : Bytes → List Bytes → Action W Bytes
  lookup_components cur [] = pure cur
  lookup_components cur (comp ∷ components) = elim (is_skipped comp) [
    | Bool.true ↦ lookup_components cur components
    | Bool.false ↦ (do fh ← lookup cur comp; lookup_components fh components)
  ]

  unfoldable pub lookup_path : List Bytes → Action W Bytes
  lookup_path components = do
    root ← gets (λ c. c.root_fh)
    elim root [
      | none ↦ raise (other_error not_mounted)
      | some cur ↦ lookup_components cur components
    ]
