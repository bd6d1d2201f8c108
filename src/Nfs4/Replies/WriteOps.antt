-- ===== src/Nfs4/Replies/WriteOps.antt =====
-- Replies to the operations of nfs4/writeops.go on open files, other than OPEN.
use go_nfs_client.Prelude.{◌∙◌, sym, if◌then◌else◌, ◌==◌}
use go_nfs_client.Xdr.Encoder
use go_nfs_client.Xdr.Encoder.{Put, each, skip, ◌>>◌}
use go_nfs_client.Xdr.Codec.{Codec, Codec-then, Codec-map, Codec-pure}
use go_nfs_client.Xdr.RoundTrip.{uint32-Codec}
use go_nfs_client.Nfs4.Types.{
  encode_stateid, copy, copy-Array, nfs4_ok, U32, Array, FitsStateid, stateid-Codec, Array-Codec,
  if-Codec,
}
use go_nfs_client.Nfs4.Results.{
  OpenConfirmRes, WriteRes, CommitRes, CloseRes, decode_open_confirm_res, decode_write_res,
  decode_commit_res, decode_close_res,
}

pub put_open_confirm_res : OpenConfirmRes → Put
put_open_confirm_res a = do
  Encoder.uint32 a.status
  (if a.status == nfs4_ok then (do encode_stateid a.stateid) else skip)

pub open_confirm_res-Codec :
    (a r : OpenConfirmRes)
    → U32 a.status
    → FitsStateid a.stateid
    → Codec (put_open_confirm_res a) (decode_open_confirm_res r) (
        if a.status == nfs4_ok
        then record r { status = a.status; stateid = a.stateid }
        else record r { status = a.status })
unfolding put_open_confirm_res decode_open_confirm_res
open_confirm_res-Codec a r hs h0 = Codec-then _ (uint32-Codec a.status hs) (
    if-Codec (a.status == nfs4_ok)
      (λ _.
        Codec-map {B = OpenConfirmRes}
          (λ stateid. record r { status = a.status; stateid = stateid })
          (stateid-Codec a.stateid h0))
      (λ _. Codec-pure _))

pub put_write_res : WriteRes → Put
put_write_res a = do
  Encoder.uint32 a.status
  (if a.status == nfs4_ok
      then (do Encoder.uint32 a.count; Encoder.uint32 a.committed; Encoder.fixed_opaque a.verf)
      else skip)

write_copied :
    (a r : WriteRes)
    → U32 a.status
    → U32 a.count
    → U32 a.committed
    → Array 8 a.verf
    → Codec (put_write_res a) (decode_write_res r) (
        if a.status == nfs4_ok
        then record r {
          status = a.status;
          count = a.count;
          committed = a.committed;
          verf = copy r.verf a.verf;
        }
        else record r { status = a.status })
unfolding put_write_res decode_write_res
write_copied a r hs h0 h1 h2 = Codec-then _ (uint32-Codec a.status hs) (
    if-Codec (a.status == nfs4_ok)
      (λ _. Codec-then _ (uint32-Codec a.count h0) (
        Codec-then _ (uint32-Codec a.committed h1) (
          Codec-map {B = WriteRes}
            (λ verf. record r {
              status = a.status;
              count = a.count;
              committed = a.committed;
              verf = copy r.verf verf;
            })
            (Array-Codec 8 a.verf h2))))
      (λ _. Codec-pure _))

pub write_res-Codec :
    (a r : WriteRes)
    → U32 a.status
    → U32 a.count
    → U32 a.committed
    → Array 8 a.verf
    → Array 8 r.verf
    → Codec (put_write_res a) (decode_write_res r) (
        if a.status == nfs4_ok
        then record r { status = a.status; count = a.count; committed = a.committed; verf = a.verf }
        else record r { status = a.status })
write_res-Codec a r hs h0 h1 h2 k2 =
    rw (copy-Array r.verf a.verf (h2 ∙ sym k2)) at (write_copied a r hs h0 h1 h2)

pub put_commit_res : CommitRes → Put
put_commit_res a = do
  Encoder.uint32 a.status
  (if a.status == nfs4_ok then (do Encoder.fixed_opaque a.verf) else skip)

commit_copied :
    (a r : CommitRes)
    → U32 a.status
    → Array 8 a.verf
    → Codec (put_commit_res a) (decode_commit_res r) (
        if a.status == nfs4_ok
        then record r { status = a.status; verf = copy r.verf a.verf }
        else record r { status = a.status })
unfolding put_commit_res decode_commit_res
commit_copied a r hs h0 = Codec-then _ (uint32-Codec a.status hs) (
    if-Codec (a.status == nfs4_ok)
      (λ _.
        Codec-map {B = CommitRes} (λ verf. record r { status = a.status; verf = copy r.verf verf })
          (Array-Codec 8 a.verf h0))
      (λ _. Codec-pure _))

pub commit_res-Codec :
    (a r : CommitRes)
    → U32 a.status
    → Array 8 a.verf
    → Array 8 r.verf
    → Codec (put_commit_res a) (decode_commit_res r) (
        if a.status == nfs4_ok
        then record r { status = a.status; verf = a.verf }
        else record r { status = a.status })
commit_res-Codec a r hs h0 k0 =
    rw (copy-Array r.verf a.verf (h0 ∙ sym k0)) at (commit_copied a r hs h0)

pub put_close_res : CloseRes → Put
put_close_res a = do
  Encoder.uint32 a.status
  (if a.status == nfs4_ok then (do encode_stateid a.stateid) else skip)

pub close_res-Codec :
    (a r : CloseRes)
    → U32 a.status
    → FitsStateid a.stateid
    → Codec (put_close_res a) (decode_close_res r) (
        if a.status == nfs4_ok
        then record r { status = a.status; stateid = a.stateid }
        else record r { status = a.status })
unfolding put_close_res decode_close_res
close_res-Codec a r hs h0 = Codec-then _ (uint32-Codec a.status hs) (
    if-Codec (a.status == nfs4_ok)
      (λ _.
        Codec-map {B = CloseRes} (λ stateid. record r { status = a.status; stateid = stateid })
          (stateid-Codec a.stateid h0))
      (λ _. Codec-pure _))
