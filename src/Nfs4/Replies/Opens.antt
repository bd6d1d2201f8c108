-- ===== src/Nfs4/Replies/Opens.antt =====
-- OPEN: replies with every form of delegation.
use go_nfs_client.Prelude.{ℕ, ◌≡◌, Bool, ◌++◌, if◌then◌else◌, ◌==◌, arith}
use go_nfs_client.Xdr.Io.{Bytes, IoError}
use go_nfs_client.Xdr.Encoder
use go_nfs_client.Xdr.Encoder.{Put, skip, ◌>>◌}
use go_nfs_client.Xdr.Codec.{
  Codec, Codec-then, Codec-map, Codec-end, Codec-pure, Codec-decodes, reader, written,
}
use go_nfs_client.Xdr.RoundTrip.{uint32-Codec, uint64-Codec, string-Codec, bool-Codec}
use go_nfs_client.Nfs4.Types.{
  encode_bitmap, Stateid, encode_stateid, nfs4_ok, U32, U64, Small, FitsBitmap, FitsStateid,
  bitmap-Codec, stateid-Codec, if-Codec, Reads-pure,
}
use go_nfs_client.Nfs4.Results.{
  OpenRes, decode_open_res, decode_delegation, decode_nfsace4, decode_space_limit,
}
use go_nfs_client.Nfs4.Replies.Changes.{
  ChangeInfo, FitsChangeInfo, put_change_info, change_info-Codec,
}

-- nfsace4 { type, flag, access_mask, who }
pub record Ace : Type 0 where
  pub type_ : ℕ
  pub flag : ℕ
  pub access_mask : ℕ
  pub who : Bytes

pub data SpaceLimit : Type 0 where
  size : ℕ → SpaceLimit
  blocks : ℕ → ℕ → SpaceLimit

-- open_delegation4: a stateid and a recall flag with what each form adds.
pub data Delegation : Type 0 where
  undelegated : Delegation
  read_delegation : Stateid → Bool → Ace → Delegation
  write_delegation : Stateid → Bool → SpaceLimit → Ace → Delegation

pub put_ace : Ace → Put
put_ace a = do
  Encoder.uint32 a.type_
  Encoder.uint32 a.flag
  Encoder.uint32 a.access_mask
  Encoder.string a.who

pub put_space_limit : SpaceLimit → Put
put_space_limit (size n) = do Encoder.uint32 1; Encoder.uint64 n
put_space_limit (blocks n m) = do Encoder.uint32 2; Encoder.uint32 n; Encoder.uint32 m

pub put_delegation : Delegation → Put
put_delegation undelegated = Encoder.uint32 0
put_delegation (read_delegation s recall ace) = do
  Encoder.uint32 1
  encode_stateid s
  Encoder.bool recall
  put_ace ace
put_delegation (write_delegation s recall limit ace) = do
  Encoder.uint32 2
  encode_stateid s
  Encoder.bool recall
  put_space_limit limit
  put_ace ace

pub put_open_res : OpenRes → ChangeInfo → Delegation → Put
put_open_res a cinfo deleg = do
  Encoder.uint32 a.status
  (if a.status == nfs4_ok
      then (do
        encode_stateid a.stateid
        put_change_info cinfo
        Encoder.uint32 a.rflags
        encode_bitmap a.attr_set
        put_delegation deleg)
      else skip)

pub record FitsAce (a : Ace) : Type 0 where
  pub type_fits : U32 a.type_
  pub flag_fits : U32 a.flag
  pub mask_fits : U32 a.access_mask
  pub who_fits : Small a.who

abbrev pub FitsSpaceLimit : SpaceLimit → Type 0
FitsSpaceLimit (size n) = U64 n
FitsSpaceLimit (blocks n m) = U32 n × U32 m

abbrev pub FitsDelegation : Delegation → Type 0
FitsDelegation undelegated = Unit
FitsDelegation (read_delegation s recall ace) = FitsStateid s × FitsAce ace
FitsDelegation (write_delegation s recall limit ace) =
    FitsStateid s × FitsSpaceLimit limit × FitsAce ace

ace-Codec : (a : Ace) → FitsAce a → Codec (put_ace a) decode_nfsace4 tt
unfolding put_ace decode_nfsace4
ace-Codec a h = Codec-then _ (uint32-Codec a.type_ h.type_fits) (
    Codec-then _ (uint32-Codec a.flag h.flag_fits) (
      Codec-then _ (uint32-Codec a.access_mask h.mask_fits)
        (Codec-map (λ _. tt) (string-Codec a.who h.who_fits))))

limit-Codec : (l : SpaceLimit) → FitsSpaceLimit l → Codec (put_space_limit l) decode_space_limit tt
unfolding put_space_limit decode_space_limit
limit-Codec (size n) h =
    Codec-then _ (uint32-Codec 1 (omega arith)) (Codec-map (λ _. tt) (uint64-Codec n h))
limit-Codec (blocks n m) h =
    Codec-then _ (uint32-Codec 2 (omega arith))
      (Codec-then _ (uint32-Codec n h.0) (Codec-map (λ _. tt) (uint32-Codec m h.1)))

delegation-Codec :
    (d : Delegation) → FitsDelegation d → Codec (put_delegation d) decode_delegation tt
unfolding put_delegation decode_delegation
delegation-Codec undelegated h = Codec-end _ (uint32-Codec 0 (omega arith)) (Reads-pure tt)
delegation-Codec (read_delegation s recall ace) h =
    Codec-then _ (uint32-Codec 1 (omega arith))
      (Codec-then _ (stateid-Codec s h.0) (Codec-then _ (bool-Codec recall) (ace-Codec ace h.1)))
delegation-Codec (write_delegation s recall limit ace) h =
    Codec-then _ (uint32-Codec 2 (omega arith)) (
      Codec-then _ (stateid-Codec s h.0) (
        Codec-then _ (bool-Codec recall)
          (Codec-then _ (limit-Codec limit h.1) (ace-Codec ace h.2))))

pub open_res-Codec :
    (a r : OpenRes) (cinfo : ChangeInfo) (deleg : Delegation)
    → U32 a.status
    → FitsStateid a.stateid
    → FitsChangeInfo cinfo
    → U32 a.rflags
    → FitsBitmap a.attr_set
    → FitsDelegation deleg
    → Codec
        (put_open_res a cinfo deleg)
        (decode_open_res r)
        (if a.status == nfs4_ok then a else record r { status = a.status })
unfolding put_open_res decode_open_res
open_res-Codec a r cinfo deleg hs hi hc hf hb hd = Codec-then _ (uint32-Codec a.status hs) (
    if-Codec (a.status == nfs4_ok)
      (λ _. Codec-then _ (stateid-Codec a.stateid hi) (
        Codec-then _ (change_info-Codec cinfo hc) (
          Codec-then _ (uint32-Codec a.rflags hf) (
            Codec-then _ (bitmap-Codec a.attr_set hb)
              (Codec-map {B = OpenRes} (λ _. a) (delegation-Codec deleg hd))))))
      (λ _. Codec-pure _))

-- OPEN's result decoder takes from a server's reply the stateid, the flags and the attributes set,
-- whatever delegation the server grants, if the status is NFS4_OK, and else only the status; what
-- follows the reply is left.
pub decode_open_res-put_open_res :
    (a r : OpenRes) (cinfo : ChangeInfo) (deleg : Delegation) (ending : IoError) (rest : Bytes)
    → U32 a.status
    → FitsStateid a.stateid
    → FitsChangeInfo cinfo
    → U32 a.rflags
    → FitsBitmap a.attr_set
    → FitsDelegation deleg
    → decode_open_res r (reader (written (put_open_res a cinfo deleg) ++ rest) ending)
      ≡ (if a.status == nfs4_ok then a else record r { status = a.status }, reader rest ending)
decode_open_res-put_open_res a r cinfo deleg ending rest hs hi hc hf hb hd =
    Codec-decodes _ _ _ (open_res-Codec a r cinfo deleg hs hi hc hf hb hd) ending rest
