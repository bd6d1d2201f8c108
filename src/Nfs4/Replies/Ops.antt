-- ===== src/Nfs4/Replies/Ops.antt =====
-- Replies to the operations of nfs4/ops.go.
use go_nfs_client.Prelude.{◌∙◌, sym, if◌then◌else◌, ◌==◌}
use go_nfs_client.Xdr.Encoder
use go_nfs_client.Xdr.Encoder.{Put, each, skip, ◌>>◌}
use go_nfs_client.Xdr.Codec.{Codec, Codec-then, Codec-map, Codec-pure}
use go_nfs_client.Xdr.RoundTrip.{uint32-Codec, uint64-Codec, opaque-Codec, string-Codec, bool-Codec}
use go_nfs_client.Nfs4.Types.{
  encode_bitmap, copy, copy-Array, nfs4_ok, nfs4err_clid_inuse, U32, U64, Small, Array, FitsBitmap,
  bitmap-Codec, Array-Codec, if-Codec,
}
use go_nfs_client.Nfs4.Results.{
  SetclientidRes, decode_setclientid_res, GetfhRes, GetattrRes, ReadRes, ReadlinkRes,
  decode_getfh_res, decode_getattr_res, decode_read_res, decode_readlink_res,
}

unfoldable pub put_getfh_res : GetfhRes → Put
put_getfh_res a = do
  Encoder.uint32 a.status
  (if a.status == nfs4_ok then (do Encoder.opaque a.fh) else skip)

pub getfh_res-Codec :
    (a r : GetfhRes)
    → U32 a.status
    → Small a.fh
    → Codec (put_getfh_res a) (decode_getfh_res r) (
        if a.status == nfs4_ok
        then record r { status = a.status; fh = a.fh }
        else record r { status = a.status })
unfolding put_getfh_res decode_getfh_res
getfh_res-Codec a r hs h0 = Codec-then _ (uint32-Codec a.status hs) (
    if-Codec (a.status == nfs4_ok)
      (λ _.
        Codec-map {B = GetfhRes} (λ fh. record r { status = a.status; fh = fh })
          (opaque-Codec a.fh h0))
      (λ _. Codec-pure _))

pub put_getattr_res : GetattrRes → Put
put_getattr_res a = do
  Encoder.uint32 a.status
  (if a.status == nfs4_ok then (do encode_bitmap a.attr_mask; Encoder.opaque a.attr_vals) else skip)

pub getattr_res-Codec :
    (a r : GetattrRes)
    → U32 a.status
    → FitsBitmap a.attr_mask
    → Small a.attr_vals
    → Codec (put_getattr_res a) (decode_getattr_res r) (
        if a.status == nfs4_ok
        then record r { status = a.status; attr_mask = a.attr_mask; attr_vals = a.attr_vals }
        else record r { status = a.status })
unfolding put_getattr_res decode_getattr_res
getattr_res-Codec a r hs h0 h1 = Codec-then _ (uint32-Codec a.status hs) (
    if-Codec (a.status == nfs4_ok)
      (λ _. Codec-then _ (bitmap-Codec a.attr_mask h0) (
        Codec-map {B = GetattrRes}
          (λ attr_vals. record r {
            status = a.status;
            attr_mask = a.attr_mask;
            attr_vals = attr_vals;
          })
          (opaque-Codec a.attr_vals h1)))
      (λ _. Codec-pure _))

pub put_read_res : ReadRes → Put
put_read_res a = do
  Encoder.uint32 a.status
  (if a.status == nfs4_ok then (do Encoder.bool a.eof; Encoder.opaque a.contents) else skip)

pub read_res-Codec :
    (a r : ReadRes)
    → U32 a.status
    → Small a.contents
    → Codec (put_read_res a) (decode_read_res r) (
        if a.status == nfs4_ok
        then record r { status = a.status; eof = a.eof; contents = a.contents }
        else record r { status = a.status })
unfolding put_read_res decode_read_res
read_res-Codec a r hs h1 = Codec-then _ (uint32-Codec a.status hs) (
    if-Codec (a.status == nfs4_ok)
      (λ _. Codec-then _ (bool-Codec a.eof) (
        Codec-map {B = ReadRes}
          (λ contents. record r { status = a.status; eof = a.eof; contents = contents })
          (opaque-Codec a.contents h1)))
      (λ _. Codec-pure _))

pub put_readlink_res : ReadlinkRes → Put
put_readlink_res a = do
  Encoder.uint32 a.status
  (if a.status == nfs4_ok then (do Encoder.string a.link) else skip)

pub readlink_res-Codec :
    (a r : ReadlinkRes)
    → U32 a.status
    → Small a.link
    → Codec (put_readlink_res a) (decode_readlink_res r) (
        if a.status == nfs4_ok
        then record r { status = a.status; link = a.link }
        else record r { status = a.status })
unfolding put_readlink_res decode_readlink_res
readlink_res-Codec a r hs h0 = Codec-then _ (uint32-Codec a.status hs) (
    if-Codec (a.status == nfs4_ok)
      (λ _.
        Codec-map {B = ReadlinkRes} (λ link. record r { status = a.status; link = link })
          (string-Codec a.link h0))
      (λ _. Codec-pure _))

pub put_setclientid_res : SetclientidRes → Put
put_setclientid_res a = do
  Encoder.uint32 a.status
  (if a.status == nfs4_ok
      then (do Encoder.uint64 a.client_id; Encoder.fixed_opaque a.confirm)
      else if a.status == nfs4err_clid_inuse
      then (do Encoder.string a.client_using_net_id; Encoder.string a.client_using_addr)
      else skip)

setclientid_copied :
    (a r : SetclientidRes)
    → U32 a.status
    → U64 a.client_id
    → Array 8 a.confirm
    → Small a.client_using_net_id
    → Small a.client_using_addr
    → Codec (put_setclientid_res a) (decode_setclientid_res r) (
        if a.status == nfs4_ok
        then record r {
          status = a.status;
          client_id = a.client_id;
          confirm = copy r.confirm a.confirm;
        }
        else if a.status == nfs4err_clid_inuse
        then record r {
          status = a.status;
          client_using_net_id = a.client_using_net_id;
          client_using_addr = a.client_using_addr;
        }
        else record r { status = a.status })
unfolding put_setclientid_res decode_setclientid_res
setclientid_copied a r hs hi hc hn ha = Codec-then _ (uint32-Codec a.status hs) (
    if-Codec (a.status == nfs4_ok)
      (λ _. Codec-then _ (uint64-Codec a.client_id hi) (
        Codec-map {B = SetclientidRes}
          (λ c. record r { status = a.status; client_id = a.client_id; confirm = copy r.confirm c })
          (Array-Codec 8 a.confirm hc)))
      (λ _.
        if-Codec (a.status == nfs4err_clid_inuse)
          (λ _. Codec-then _ (string-Codec a.client_using_net_id hn) (
            Codec-map {B = SetclientidRes}
              (λ c. record r {
                status = a.status;
                client_using_net_id = a.client_using_net_id;
                client_using_addr = c;
              })
              (string-Codec a.client_using_addr ha)))
          (λ _. Codec-pure _)))

pub setclientid_res-Codec :
    (a r : SetclientidRes)
    → U32 a.status
    → U64 a.client_id
    → Array 8 a.confirm
    → Array 8 r.confirm
    → Small a.client_using_net_id
    → Small a.client_using_addr
    → Codec (put_setclientid_res a) (decode_setclientid_res r) (
        if a.status == nfs4_ok
        then record r { status = a.status; client_id = a.client_id; confirm = a.confirm }
        else if a.status == nfs4err_clid_inuse
        then record r {
          status = a.status;
          client_using_net_id = a.client_using_net_id;
          client_using_addr = a.client_using_addr;
        }
        else record r { status = a.status })
setclientid_res-Codec a r hs hi hc hr hn ha =
    rw (copy-Array r.confirm a.confirm (hc ∙ sym hr)) at (setclientid_copied a r hs hi hc hn ha)
