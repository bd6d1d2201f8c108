-- ===== src/Rpc/Replies.antt =====
-- Replies as RFC 5531 section 9 lays them out, and how rpc/message.go reads them.
use go_nfs_client.Prelude.{ℕ, ◌^◌, ◌<◌, ◌≡◌, ◌≢◌, ◌↔◌, refl, none, [], ◌++◌, arith, ==_ne}
use go_nfs_client.Xdr.Io.{Bytes, IoError}
use go_nfs_client.Xdr.Encoder
use go_nfs_client.Xdr.Encoder.{Put, ◌>>◌}
use go_nfs_client.Xdr.Decoder.{pure, get_err, ◌>>=◌}
use go_nfs_client.Xdr.Codec.{
  Codec, Codec-then, Codec-map, Codec-end, Codec-get_err, Reads, reader, written, Codec-decodes,
}
use go_nfs_client.Xdr.RoundTrip.{uint32-Codec}
use go_nfs_client.Rpc.Auth.{OpaqueAuth, encode_opaque_auth}
use go_nfs_client.Rpc.Message.{
  ReplyHeader, ok, new_reply, checked, mismatch_range, decode_accepted, decode_denied,
  decode_reply_body, decode_reply_header, reply_error, msg_accepted, msg_denied, accept_success,
  accept_prog_mismatch,
}
use go_nfs_client.Rpc.RoundTrip.{FitsAuth, opaque_auth-Codec}

-- The reply_body union of RFC 5531; `rejected` is an accept_stat with no data of its own.
pub data Reply : Type 0 where
  success : OpaqueAuth → Reply
  version_mismatch : OpaqueAuth → ℕ → ℕ → Reply
  rejected : OpaqueAuth → ℕ → Reply
  rpc_version_mismatch : ℕ → ℕ → Reply
  auth_failed : ℕ → Reply

abbrev pub FitsReply : Reply → Type 0
FitsReply (success v) = FitsAuth v
FitsReply (version_mismatch v lo hi) = FitsAuth v × (lo < 2 ^ 32) × (hi < 2 ^ 32)
FitsReply (rejected v s) =
    FitsAuth v × (s < 2 ^ 32) × (s ≢ accept_success) × (s ≢ accept_prog_mismatch)
FitsReply (rpc_version_mismatch lo hi) = (lo < 2 ^ 32) × (hi < 2 ^ 32)
FitsReply (auth_failed s) = s < 2 ^ 32

unfoldable pub put_accepted : OpaqueAuth → Put → Put
put_accepted v rest = do Encoder.uint32 0; encode_opaque_auth v; rest

unfoldable pub put_range : ℕ → ℕ → Put
put_range lo hi = do Encoder.uint32 lo; Encoder.uint32 hi

unfoldable pub put_body : Reply → Put
unfolding put_accepted put_range
put_body (success v) = put_accepted v (Encoder.uint32 0)
put_body (version_mismatch v lo hi) = put_accepted v (Encoder.uint32 2 >> put_range lo hi)
put_body (rejected v s) = put_accepted v (Encoder.uint32 s)
put_body (rpc_version_mismatch lo hi) = Encoder.uint32 1 >> (Encoder.uint32 0 >> put_range lo hi)
put_body (auth_failed s) = Encoder.uint32 1 >> (Encoder.uint32 1 >> Encoder.uint32 s)

-- A server's reply to `xid`, up to the procedure's results.
unfoldable pub put_reply : ℕ → Reply → Put
put_reply xid r = do Encoder.uint32 xid; Encoder.uint32 1; put_body r

-- The fields that the client keeps of it.
abbrev pub header_of : ℕ → Reply → ReplyHeader
header_of xid (success v) = record (new_reply xid msg_accepted) { verf = v }
header_of xid (version_mismatch v lo hi) = record (new_reply xid msg_accepted) {
  verf = v;
  accept_stat = 2;
  low = lo;
  high = hi;
}
header_of xid (rejected v s) = record (new_reply xid msg_accepted) { verf = v; accept_stat = s }
header_of xid (rpc_version_mismatch lo hi) = record (new_reply xid msg_denied) {
  low = lo;
  high = hi;
}
header_of xid (auth_failed s) = record (new_reply xid msg_denied) { reject_stat = 1; auth_stat = s }

checked-Reads : {A : Type 0} (r : A) → Reads (checked r) [] (ok r)
unfolding checked get_err ◌>>=◌ pure
checked-Reads r ending rest = refl

pure-checked-Reads : {A : Type 0} (r : A) → Reads (pure r >>= λ x. checked x) [] (ok r)
unfolding ◌>>=◌ pure
pure-checked-Reads r = checked-Reads r

range-Codec :
    (r : ReplyHeader) (lo hi : ℕ)
    → lo < 2 ^ 32
    → hi < 2 ^ 32
    → Codec (put_range lo hi) (mismatch_range r) (record r { low = lo; high = hi })
unfolding put_range mismatch_range
range-Codec r lo hi hlo hhi =
    Codec-then _ (uint32-Codec lo hlo)
      (Codec-map (λ h. record r { low = lo; high = h }) (uint32-Codec hi hhi))

body-Codec :
    (xid : ℕ) (r : Reply)
    → FitsReply r
    → Codec (put_body r) (decode_reply_body xid) (ok (header_of xid r))
unfolding put_body decode_reply_body decode_accepted decode_denied
body-Codec xid (success v) h = Codec-then _ (uint32-Codec 0 (omega arith)) (
    Codec-then _ (opaque_auth-Codec v h)
      (Codec-end _ (uint32-Codec 0 (omega arith)) (pure-checked-Reads _)))
body-Codec xid (version_mismatch v lo hi) h = Codec-then _ (uint32-Codec 0 (omega arith)) (
    Codec-then _ (opaque_auth-Codec v h.0) (
      Codec-then _ (uint32-Codec 2 (omega arith))
        (Codec-end _ (range-Codec _ lo hi h.1 h.2) (checked-Reads _))))
body-Codec xid (rejected v s) h = Codec-then _ (uint32-Codec 0 (omega arith)) (
    Codec-then _ (opaque_auth-Codec v h.0) (
      Codec-end _ (uint32-Codec s h.1)
        (rw (==_ne s accept_prog_mismatch h.3) (pure-checked-Reads _))))
body-Codec xid (rpc_version_mismatch lo hi) h = Codec-then _ (uint32-Codec 1 (omega arith)) (
    Codec-then _ (uint32-Codec 0 (omega arith))
      (Codec-end _ (range-Codec _ lo hi h.0 h.1) (checked-Reads _)))
body-Codec xid (auth_failed s) h =
    Codec-then _ (uint32-Codec 1 (omega arith)) (
      Codec-then _ (uint32-Codec 1 (omega arith))
        (Codec-end _ (uint32-Codec s h) (checked-Reads _)))

pub reply-Codec :
    (xid : ℕ) (r : Reply)
    → xid < 2 ^ 32
    → FitsReply r
    → Codec (put_reply xid r) decode_reply_header (ok (header_of xid r))
unfolding put_reply decode_reply_header
reply-Codec xid r hx h =
    Codec-then _ (uint32-Codec xid hx)
      (Codec-then _ (uint32-Codec 1 (omega arith)) (Codec-get_err _ (body-Codec xid r h)))

-- The client decodes every reply that RFC 5531 allows to the header that the server sent, and stops
-- right before the procedure's results.
pub decode_reply_header-put_reply :
    (xid : ℕ) (r : Reply) (ending : IoError) (results : Bytes)
    → xid < 2 ^ 32
    → FitsReply r
    → decode_reply_header (reader (written (put_reply xid r) ++ results) ending)
      ≡ (ok (header_of xid r), reader results ending)
decode_reply_header-put_reply xid r ending results hx h =
    Codec-decodes _ _ _ (reply-Codec xid r hx h) ending results

abbrev pub IsSuccess : Reply → Type 0
IsSuccess (success v) = Unit
IsSuccess _ = ⊥

-- Of these, only an accepted SUCCESS passes the check of (*ReplyHeader).Error.
pub reply_error-none_iff :
    (xid : ℕ) (r : Reply) → FitsReply r → (reply_error (header_of xid r) ≡ none) ↔ IsSuccess r
unfolding reply_error
reply_error-none_iff xid (success v) h = (λ _. tt, λ _. refl)
reply_error-none_iff xid (version_mismatch v lo hi) h = (λ e. cc, λ e. absurd e)
reply_error-none_iff xid (rejected v s) h = (λ e. ground arith, λ e. absurd e)
reply_error-none_iff xid (rpc_version_mismatch lo hi) h = (λ e. cc, λ e. absurd e)
reply_error-none_iff xid (auth_failed s) h = (λ e. cc, λ e. absurd e)
