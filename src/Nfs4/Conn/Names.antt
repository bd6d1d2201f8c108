-- ===== src/Nfs4/Conn/Names.antt =====
-- nfs4/conn_write.go: the operations on names, and SetAttr.
use go_nfs_client.Prelude.{[], ◌∷◌}
use go_nfs_client.Xdr.Io.{Bytes}
use go_nfs_client.Nfs4.Types.{Bitmap, Stateid}
use go_nfs_client.Nfs4.Args.{
  putfh_args, getfh_args, CreateArgs, create_args, remove_args, rename_args, link_args,
  setattr_args, savefh_args,
}
use go_nfs_client.Nfs4.Compound.{add}
use go_nfs_client.Nfs4.Conn.Stack.{Environment}
use go_nfs_client.Nfs4.Conn.Action.{Action, pure, ◌>>=◌, ◌>>◌, check, check_result, compound, call}
use go_nfs_client.Nfs4.Conn.Zero.{
  first, second, new_status_res, status_result, new_getfh_res, getfh_result, new_create_res,
  create_result, new_remove_res, remove_result, new_rename_res, rename_result, new_link_res,
  link_result, new_setattr_res, setattr_result,
}

module _ {W : Type 0} (env : Environment W) where
  unfoldable pub create : Bytes → CreateArgs → Action W Bytes
  create dir args = do
    (r, (put_res, (cr_res, get_res))) ←
        call env
          (λ c.
            add (add (add (compound c) (putfh_args (record { fh = dir }))) (create_args args))
              getfh_args)
          (first status_result ∷ second (first create_result) ∷ second (second getfh_result) ∷ [])
          (new_status_res, (new_create_res, new_getfh_res))
    check_result r
    check cr_res.status
    pure get_res.fh

  -- NF4DIR is 2, and NF4LNK is 5.
  unfoldable pub mkdir : Bytes → Bytes → Bitmap → Bytes → Action W Bytes
  mkdir dir name attr_mask attr_vals = create dir (record {
    ftype = 2;
    link_data = [];
    obj_name = name;
    attr_mask = attr_mask;
    attr_vals = attr_vals;
  })

  unfoldable pub symlink : Bytes → Bytes → Bytes → Bitmap → Bytes → Action W Bytes
  symlink dir name target attr_mask attr_vals = create dir (record {
    ftype = 5;
    link_data = target;
    obj_name = name;
    attr_mask = attr_mask;
    attr_vals = attr_vals;
  })

  unfoldable pub remove : Bytes → Bytes → Action W (Unit {0})
  remove dir name = do
    (r, (put_res, rm_res)) ←
        call env
          (λ c.
            add (add (compound c) (putfh_args (record { fh = dir })))
              (remove_args (record { name = name })))
          (first status_result ∷ second remove_result ∷ []) (new_status_res, new_remove_res)
    check_result r
    check rm_res.status

  unfoldable pub rename : Bytes → Bytes → Bytes → Bytes → Action W (Unit {0})
  rename src_dir old_name dst_dir new_name = do
    (r, (p1, (sv, (p2, rn_res)))) ←
        call env
          (λ c.
            add
              (add (add (add (compound c) (putfh_args (record { fh = src_dir }))) savefh_args)
                (putfh_args (record { fh = dst_dir })))
              (rename_args (record { old_name = old_name; new_name = new_name })))
          (first status_result
            ∷ second (first status_result)
            ∷ second (second (first status_result))
            ∷ second (second (second rename_result))
            ∷ [])
          (new_status_res, (new_status_res, (new_status_res, new_rename_res)))
    check_result r
    check rn_res.status

  unfoldable pub link : Bytes → Bytes → Bytes → Action W (Unit {0})
  link src dst_dir new_name = do
    (r, (p1, (sv, (p2, ln_res)))) ←
        call env
          (λ c.
            add
              (add (add (add (compound c) (putfh_args (record { fh = src }))) savefh_args)
                (putfh_args (record { fh = dst_dir })))
              (link_args (record { new_name = new_name })))
          (first status_result
            ∷ second (first status_result)
            ∷ second (second (first status_result))
            ∷ second (second (second link_result))
            ∷ [])
          (new_status_res, (new_status_res, (new_status_res, new_link_res)))
    check_result r
    check ln_res.status

  unfoldable pub set_attr : Bytes → Stateid → Bitmap → Bytes → Action W (Unit {0})
  set_attr fh sid attr_mask attr_vals = do
    (r, (put_res, sa_res)) ←
        call env
          (λ c.
            add (add (compound c) (putfh_args (record { fh = fh }))) (
              setattr_args
                (record { stateid = sid; attr_mask = attr_mask; attr_vals = attr_vals })))
          (first status_result ∷ second setattr_result ∷ []) (new_status_res, new_setattr_res)
    check_result r
    check sa_res.status
