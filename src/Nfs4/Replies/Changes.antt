-- ===== src/Nfs4/Replies/Changes.antt =====
-- Replies to the operations of nfs4/writeops.go that change a directory, other than OPEN.
use go_nfs_client.Prelude.{ℕ, Bool, if◌then◌else◌, ◌==◌}
use go_nfs_client.Xdr.Encoder
use go_nfs_client.Xdr.Encoder.{Put, each, skip, ◌>>◌}
use go_nfs_client.Xdr.Codec.{Codec, Codec-then, Codec-map, Codec-pure}
use go_nfs_client.Xdr.RoundTrip.{uint32-Codec, uint64-Codec, bool-Codec}
use go_nfs_client.Nfs4.Types.{encode_bitmap, nfs4_ok, U32, U64, FitsBitmap, bitmap-Codec, if-Codec}
use go_nfs_client.Nfs4.Results.{
  discard_change_info, CreateRes, RemoveRes, RenameRes, LinkRes, decode_create_res,
  decode_remove_res, decode_rename_res, decode_link_res,
}

pub record ChangeInfo : Type 0 where
  pub atomic : Bool
  pub before : ℕ
  pub after : ℕ

pub record FitsChangeInfo (c : ChangeInfo) : Type 0 where
  pub before_fits : U64 c.before
  pub after_fits : U64 c.after

pub put_change_info : ChangeInfo → Put
put_change_info c = do Encoder.bool c.atomic; Encoder.uint64 c.before; Encoder.uint64 c.after

pub change_info-Codec :
    (c : ChangeInfo) → FitsChangeInfo c → Codec (put_change_info c) discard_change_info tt
unfolding put_change_info discard_change_info
change_info-Codec c h = Codec-then _ (bool-Codec c.atomic) (
    Codec-then _ (uint64-Codec c.before h.before_fits)
      (Codec-map (λ _. tt) (uint64-Codec c.after h.after_fits)))

pub put_create_res : CreateRes → ChangeInfo → Put
put_create_res a cinfo = do
  Encoder.uint32 a.status
  (if a.status == nfs4_ok then (do put_change_info cinfo; encode_bitmap a.attr_set) else skip)

pub create_res-Codec :
    (a r : CreateRes) (cinfo : ChangeInfo)
    → U32 a.status
    → FitsChangeInfo cinfo
    → FitsBitmap a.attr_set
    → Codec (put_create_res a cinfo) (decode_create_res r) (
        if a.status == nfs4_ok
        then record r { status = a.status; attr_set = a.attr_set }
        else record r { status = a.status })
unfolding put_create_res decode_create_res
create_res-Codec a r cinfo hs h0 h1 = Codec-then _ (uint32-Codec a.status hs) (
    if-Codec (a.status == nfs4_ok)
      (λ _. Codec-then _ (change_info-Codec cinfo h0) (
        Codec-map {B = CreateRes} (λ attr_set. record r { status = a.status; attr_set = attr_set })
          (bitmap-Codec a.attr_set h1)))
      (λ _. Codec-pure _))

pub put_remove_res : RemoveRes → ChangeInfo → Put
put_remove_res a cinfo = do
  Encoder.uint32 a.status
  (if a.status == nfs4_ok then (do put_change_info cinfo) else skip)

pub remove_res-Codec :
    (a r : RemoveRes) (cinfo : ChangeInfo)
    → U32 a.status
    → FitsChangeInfo cinfo
    → Codec (put_remove_res a cinfo) (decode_remove_res r) (
        if a.status == nfs4_ok
        then record r { status = a.status }
        else record r { status = a.status })
unfolding put_remove_res decode_remove_res
remove_res-Codec a r cinfo hs h0 = Codec-then _ (uint32-Codec a.status hs) (
    if-Codec (a.status == nfs4_ok)
      (λ _.
        Codec-map {B = RemoveRes} (λ _. record r { status = a.status })
          (change_info-Codec cinfo h0))
      (λ _. Codec-pure _))

pub put_rename_res : RenameRes → ChangeInfo → ChangeInfo → Put
put_rename_res a source_cinfo target_cinfo = do
  Encoder.uint32 a.status
  (if a.status == nfs4_ok
      then (do put_change_info source_cinfo; put_change_info target_cinfo)
      else skip)

pub rename_res-Codec :
    (a r : RenameRes) (source_cinfo target_cinfo : ChangeInfo)
    → U32 a.status
    → FitsChangeInfo source_cinfo
    → FitsChangeInfo target_cinfo
    → Codec (put_rename_res a source_cinfo target_cinfo) (decode_rename_res r) (
        if a.status == nfs4_ok
        then record r { status = a.status }
        else record r { status = a.status })
unfolding put_rename_res decode_rename_res
rename_res-Codec a r source_cinfo target_cinfo hs h0 h1 = Codec-then _ (uint32-Codec a.status hs) (
    if-Codec (a.status == nfs4_ok)
      (λ _. Codec-then _ (change_info-Codec source_cinfo h0) (
        Codec-map {B = RenameRes} (λ _. record r { status = a.status })
          (change_info-Codec target_cinfo h1)))
      (λ _. Codec-pure _))

pub put_link_res : LinkRes → ChangeInfo → Put
put_link_res a cinfo = do
  Encoder.uint32 a.status
  (if a.status == nfs4_ok then (do put_change_info cinfo) else skip)

pub link_res-Codec :
    (a r : LinkRes) (cinfo : ChangeInfo)
    → U32 a.status
    → FitsChangeInfo cinfo
    → Codec (put_link_res a cinfo) (decode_link_res r) (
        if a.status == nfs4_ok
        then record r { status = a.status }
        else record r { status = a.status })
unfolding put_link_res decode_link_res
link_res-Codec a r cinfo hs h0 = Codec-then _ (uint32-Codec a.status hs) (
    if-Codec (a.status == nfs4_ok)
      (λ _.
        Codec-map {B = LinkRes} (λ _. record r { status = a.status }) (change_info-Codec cinfo h0))
      (λ _. Codec-pure _))
