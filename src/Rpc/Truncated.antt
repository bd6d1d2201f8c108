-- ===== src/Rpc/Truncated.antt =====
-- A reply whose header breaks off.
use go_nfs_client.Prelude.{
  ℕ, ◌^◌, ◌<◌, ◌≡◌, ◌≢◌, none, some, Bool, true, false, ◌++◌, ◌∷◌, arith, if◌then◌else◌, ◌==◌,
}
use go_nfs_client.Xdr.Io.{Bytes, IoError}
use go_nfs_client.Xdr.Decoder
use go_nfs_client.Xdr.Decoder.{Decoder, Get, pure, get_err, ◌>>=◌}
use go_nfs_client.Xdr.Codec.{reader, written}
use go_nfs_client.Xdr.Parser.{
  IsParser, >>=-IsParser, if-IsParser, Option-IsParser, pure-IsParser, get_err-IsParser,
  uint32-IsParser, opaque-IsParser, Codec-truncated,
}
use go_nfs_client.Rpc.Auth.{decode_opaque_auth}
use go_nfs_client.Rpc.Message.{
  ReplyHeader, Result, ok, err, xdr, not_reply, unknown_reply_stat, unknown_reject_stat, Error,
  checked, mismatch_range, decode_accepted, decode_denied, decode_reply_body, decode_reply_header,
  msg_reply, msg_accepted, msg_denied, accept_prog_mismatch, reject_rpc_mismatch, reject_auth_error,
}
use go_nfs_client.Rpc.Replies.{Reply, FitsReply, put_reply, reply-Codec}

opaque_auth-IsParser : IsParser decode_opaque_auth
unfolding decode_opaque_auth
opaque_auth-IsParser =
    >>=-IsParser Decoder.uint32 _ uint32-IsParser
      λ f. >>=-IsParser Decoder.opaque _ opaque-IsParser λ b. pure-IsParser _

checked-IsParser : {A : Type 0} (r : A) → IsParser (checked r)
unfolding checked
checked-IsParser r = >>=-IsParser get_err _ get_err-IsParser λ e. pure-IsParser _

range-IsParser : (r : ReplyHeader) → IsParser (mismatch_range r)
unfolding mismatch_range
range-IsParser r =
    >>=-IsParser Decoder.uint32 _ uint32-IsParser
      λ lo. >>=-IsParser Decoder.uint32 _ uint32-IsParser λ hi. pure-IsParser _

accepted-IsParser : (xid : ℕ) → IsParser (decode_accepted xid)
unfolding decode_accepted
accepted-IsParser xid = >>=-IsParser decode_opaque_auth _ opaque_auth-IsParser λ v.
    >>=-IsParser Decoder.uint32 _ uint32-IsParser λ s.
      >>=-IsParser _ _
        (if-IsParser (s == accept_prog_mismatch) _ _ (λ _. range-IsParser _) λ _. pure-IsParser _)
        checked-IsParser

denied-IsParser : (xid : ℕ) → IsParser (decode_denied xid)
unfolding decode_denied
denied-IsParser xid = >>=-IsParser Decoder.uint32 _ uint32-IsParser λ s.
    if-IsParser (s == reject_rpc_mismatch) _ _
      (λ _. >>=-IsParser _ _ (range-IsParser _) checked-IsParser)
      λ _.
        if-IsParser (s == reject_auth_error) _ _
          (λ _. >>=-IsParser Decoder.uint32 _ uint32-IsParser λ a. checked-IsParser _)
          λ _. pure-IsParser _

body-IsParser : (xid : ℕ) → IsParser (decode_reply_body xid)
unfolding decode_reply_body
body-IsParser xid = >>=-IsParser Decoder.uint32 _ uint32-IsParser λ s.
    if-IsParser (s == msg_accepted) _ _ (λ _. accepted-IsParser xid)
      λ _. if-IsParser (s == msg_denied) _ _ (λ _. denied-IsParser xid) λ _. pure-IsParser _

header-IsParser : IsParser decode_reply_header
unfolding decode_reply_header
header-IsParser = >>=-IsParser Decoder.uint32 _ uint32-IsParser λ xid.
    >>=-IsParser Decoder.uint32 _ uint32-IsParser λ mtype.
      >>=-IsParser get_err _ get_err-IsParser (λ e.
        Option-IsParser e _ _ (λ x. pure-IsParser _)
          (if-IsParser (mtype == msg_reply) _ _ (λ _. body-IsParser xid) λ _. pure-IsParser _))

-- A header is returned only where no read has failed.
abbrev OkUnfailed : {A : Type 0} → Get (Result A) → Type 0
OkUnfailed {A} get = (d : Decoder) (r : A) → (get d).0 ≡ ok r → (get d).1.err ≡ none

bind-OkUnfailed :
    {A B : Type 0} (m : Get A) (f : A → Get (Result B))
    → ((a : A) → OkUnfailed (f a))
    → OkUnfailed (m >>= f)
unfolding ◌>>=◌
bind-OkUnfailed m f h d r e = h (m d).0 (m d).1 r e

checked-OkUnfailed : {A : Type 0} (r : A) → OkUnfailed (checked r)
unfolding checked get_err ◌>>=◌ pure
checked-OkUnfailed r d q e = ground arith

refused-OkUnfailed : {A : Type 0} (x : Error) → OkUnfailed {A = A} (pure (err x))
unfolding pure
refused-OkUnfailed x d q e = ground arith

if-OkUnfailed :
    {A : Type 0} (b : Bool) (x y : Get (Result A))
    → OkUnfailed x
    → OkUnfailed y
    → OkUnfailed (if b then x else y)
if-OkUnfailed true x y hx hy = hx
if-OkUnfailed false x y hx hy = hy

denied-OkUnfailed : (xid : ℕ) → OkUnfailed (decode_denied xid)
unfolding decode_denied
denied-OkUnfailed xid = bind-OkUnfailed Decoder.uint32 _ λ s.
    if-OkUnfailed (s == reject_rpc_mismatch) _ _ (bind-OkUnfailed _ _ checked-OkUnfailed) (
      if-OkUnfailed (s == reject_auth_error) _ _
        (bind-OkUnfailed Decoder.uint32 _ λ a. checked-OkUnfailed _)
        (refused-OkUnfailed (unknown_reject_stat s)))

accepted-OkUnfailed : (xid : ℕ) → OkUnfailed (decode_accepted xid)
unfolding decode_accepted
accepted-OkUnfailed xid =
    bind-OkUnfailed decode_opaque_auth _
      λ v. bind-OkUnfailed Decoder.uint32 _ λ s. bind-OkUnfailed _ _ checked-OkUnfailed

body-OkUnfailed : (xid : ℕ) → OkUnfailed (decode_reply_body xid)
unfolding decode_reply_body
body-OkUnfailed xid = bind-OkUnfailed Decoder.uint32 _ λ s.
    if-OkUnfailed (s == msg_accepted) _ _ (accepted-OkUnfailed xid) (
      if-OkUnfailed (s == msg_denied) _ _ (denied-OkUnfailed xid)
        (refused-OkUnfailed (unknown_reply_stat s)))

header-OkUnfailed : OkUnfailed decode_reply_header
unfolding decode_reply_header
header-OkUnfailed = bind-OkUnfailed Decoder.uint32 _ λ xid.
    bind-OkUnfailed Decoder.uint32 _ λ mtype. bind-OkUnfailed get_err _ (elim [
      | some x ↦ refused-OkUnfailed (xdr x)
      | none ↦
          if-OkUnfailed (mtype == msg_reply) _ _ (body-OkUnfailed xid)
            (refused-OkUnfailed (not_reply mtype))
    ])

-- A reply that breaks off inside its header is refused, wherever it breaks off and whatever error
-- the stream ends with.
pub decode_reply_header_truncated :
    (xid : ℕ) (r : Reply) (front back : Bytes) (x : ℕ) (ending : IoError)
    → xid < 2 ^ 32
    → FitsReply r
    → written (put_reply xid r) ≡ front ++ x ∷ back
    → (h : ReplyHeader) → (decode_reply_header (reader front ending)).0 ≢ ok h
decode_reply_header_truncated xid r front back x ending hx fits e h ok_h =
    let (bad, failed) =
      Codec-truncated _ _ _ (reply-Codec xid r hx fits) header-IsParser front back x ending e in
    cc (failed, header-OkUnfailed (reader front ending) h ok_h)
