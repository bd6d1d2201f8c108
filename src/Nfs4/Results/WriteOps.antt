-- ===== src/Nfs4/Results/WriteOps.antt =====
-- nfs4/writeops.go: the results of the NFSv4.0 operations that write.
use go_nfs_client.Prelude.{ℕ, Bool, if◌then◌else◌, ◌==◌, ◌/◌, ◌%◌}
use go_nfs_client.Prelude.Int.{pos}
use go_nfs_client.Xdr.Io.{Bytes}
use go_nfs_client.Xdr.Decoder
use go_nfs_client.Xdr.Decoder.{Decoder, Get, pure, times, get_err, ◌>>=◌}
use go_nfs_client.Nfs4.Types.{Bitmap, decode_bitmap, Stateid, decode_stateid, copy, nfs4_ok}

-- `_ = d.Bool(); _ = d.Uint64(); _ = d.Uint64()`: a change_info4 that is dropped.
unfoldable pub discard_change_info : Get (Unit {0})
discard_change_info = do _ ← Decoder.bool; _ ← Decoder.uint64; _ ← Decoder.uint64; pure tt

-- An nfsace4, dropped.
unfoldable pub decode_nfsace4 : Get (Unit {0})
decode_nfsace4 = do
  _ ← Decoder.uint32
  _ ← Decoder.uint32
  _ ← Decoder.uint32
  _ ← Decoder.string
  pure tt

-- An nfs_space_limit4, dropped.
unfoldable pub decode_space_limit : Get (Unit {0})
decode_space_limit = do
  limit_by ← Decoder.uint32
  if limit_by == 1
      then (do _ ← Decoder.uint64; pure tt)
      else if limit_by == 2
      then (do _ ← Decoder.uint32; _ ← Decoder.uint32; pure tt)
      else pure tt

-- An open_delegation4, dropped.
unfoldable pub decode_delegation : Get (Unit {0})
decode_delegation = do
  deleg_type ← Decoder.uint32
  if deleg_type == 0
      then pure tt
      else if deleg_type == 1
      then (do _ ← decode_stateid; _ ← Decoder.bool; decode_nfsace4)
      else if deleg_type == 2
      then (do _ ← decode_stateid; _ ← Decoder.bool; _ ← decode_space_limit; decode_nfsace4)
      else pure tt

pub record OpenRes : Type 0 where
  pub status : ℕ
  pub stateid : Stateid
  pub rflags : ℕ
  pub attr_set : Bitmap

unfoldable pub decode_open_res : OpenRes → Get OpenRes
decode_open_res r = do
  status ← Decoder.uint32
  if status == nfs4_ok
      then (do
        stateid ← decode_stateid
        _ ← discard_change_info
        rflags ← Decoder.uint32
        attr_set ← decode_bitmap
        _ ← decode_delegation
        pure
            (record r { status = status; stateid = stateid; rflags = rflags; attr_set = attr_set }))
      else pure (record r { status = status })

-- `r.RFlags & OpenResultConfirm != 0`
unfoldable pub needs_confirm : OpenRes → Bool
needs_confirm r = r.rflags / 2 % 2 == 1

pub record OpenConfirmRes : Type 0 where
  pub status : ℕ
  pub stateid : Stateid

unfoldable pub decode_open_confirm_res : OpenConfirmRes → Get OpenConfirmRes
decode_open_confirm_res r = do
  status ← Decoder.uint32
  if status == nfs4_ok
      then (do stateid ← decode_stateid; pure (record r { status = status; stateid = stateid }))
      else pure (record r { status = status })

pub record WriteRes : Type 0 where
  pub status : ℕ
  pub count : ℕ
  pub committed : ℕ
  pub verf : Bytes

unfoldable pub decode_write_res : WriteRes → Get WriteRes
decode_write_res r = do
  status ← Decoder.uint32
  if status == nfs4_ok
      then (do
        count ← Decoder.uint32
        committed ← Decoder.uint32
        verf ← Decoder.fixed_opaque (pos 8)
        pure (record r {
          status = status;
          count = count;
          committed = committed;
          verf = copy r.verf verf;
        }))
      else pure (record r { status = status })

pub record CommitRes : Type 0 where
  pub status : ℕ
  pub verf : Bytes

unfoldable pub decode_commit_res : CommitRes → Get CommitRes
decode_commit_res r = do
  status ← Decoder.uint32
  if status == nfs4_ok
      then (do
        verf ← Decoder.fixed_opaque (pos 8)
        pure (record r { status = status; verf = copy r.verf verf }))
      else pure (record r { status = status })

pub record CloseRes : Type 0 where
  pub status : ℕ
  pub stateid : Stateid

unfoldable pub decode_close_res : CloseRes → Get CloseRes
decode_close_res r = do
  status ← Decoder.uint32
  if status == nfs4_ok
      then (do stateid ← decode_stateid; pure (record r { status = status; stateid = stateid }))
      else pure (record r { status = status })

pub record CreateRes : Type 0 where
  pub status : ℕ
  pub attr_set : Bitmap

unfoldable pub decode_create_res : CreateRes → Get CreateRes
decode_create_res r = do
  status ← Decoder.uint32
  if status == nfs4_ok
      then (do
        _ ← discard_change_info
        attr_set ← decode_bitmap
        pure (record r { status = status; attr_set = attr_set }))
      else pure (record r { status = status })

pub record RemoveRes : Type 0 where
  pub status : ℕ

unfoldable pub decode_remove_res : RemoveRes → Get RemoveRes
decode_remove_res r = do
  status ← Decoder.uint32
  if status == nfs4_ok
      then (do _ ← discard_change_info; pure (record r { status = status }))
      else pure (record r { status = status })

pub record RenameRes : Type 0 where
  pub status : ℕ

unfoldable pub decode_rename_res : RenameRes → Get RenameRes
decode_rename_res r = do
  status ← Decoder.uint32
  if status == nfs4_ok
      then (do
        _ ← discard_change_info
        _ ← discard_change_info
        pure (record r { status = status }))
      else pure (record r { status = status })

pub record LinkRes : Type 0 where
  pub status : ℕ

unfoldable pub decode_link_res : LinkRes → Get LinkRes
decode_link_res r = do
  status ← Decoder.uint32
  if status == nfs4_ok
      then (do _ ← discard_change_info; pure (record r { status = status }))
      else pure (record r { status = status })

pub record SetattrRes : Type 0 where
  pub status : ℕ
  pub attr_set : Bitmap

-- The bitmap follows whatever the status is.
unfoldable pub decode_setattr_res : SetattrRes → Get SetattrRes
decode_setattr_res r = do
  status ← Decoder.uint32
  attr_set ← decode_bitmap
  pure (record { status = status; attr_set = attr_set })
