-- ===== src/Rpc/Message.antt =====
-- rpc/message.go and the constants of rpc/consts.go.
use go_nfs_client.Prelude.{ℕ, Option, none, some, if◌then◌else◌, ◌==◌}
use go_nfs_client.Xdr.Io.{IoError}
use go_nfs_client.Xdr.Encoder
use go_nfs_client.Xdr.Encoder.{Put, ◌>>◌}
use go_nfs_client.Xdr.Decoder
use go_nfs_client.Xdr.Decoder.{Get, pure, get_err, ◌>>=◌}
use go_nfs_client.Rpc.Record.{RecordError}
use go_nfs_client.Rpc.Auth.{OpaqueAuth, auth_null, encode_opaque_auth, decode_opaque_auth}

abbrev pub rpc_version : ℕ
rpc_version = 2

abbrev pub msg_call : ℕ
msg_call = 0

abbrev pub msg_reply : ℕ
msg_reply = 1

abbrev pub msg_accepted : ℕ
msg_accepted = 0

abbrev pub msg_denied : ℕ
msg_denied = 1

abbrev pub accept_success : ℕ
accept_success = 0

abbrev pub accept_prog_mismatch : ℕ
accept_prog_mismatch = 2

abbrev pub reject_rpc_mismatch : ℕ
reject_rpc_mismatch = 0

abbrev pub reject_auth_error : ℕ
reject_auth_error = 1

-- The errors of package rpc. `ctx n` is the error of a context that is done, by a number.
pub data Error : Type 0 where
  xdr : Decoder.Error → Error
  write_failed read_failed : RecordError → Error
  not_reply unknown_reject_stat unknown_reply_stat : ℕ → Error
  prog_mismatch rpc_mismatch : ℕ → ℕ → Error
  accept_error auth_error denied : ℕ → Error
  xid_mismatch : ℕ → ℕ → Error
  ctx : ℕ → Error
  encode_failed : IoError → Error

pub data Result (A : Type 0) : Type 0 where
  ok : A → Result A
  err : Error → Result A

pub record CallHeader : Type 0 where
  pub xid : ℕ
  pub prog : ℕ
  pub vers : ℕ
  pub proc : ℕ
  pub cred : OpaqueAuth
  pub verf : OpaqueAuth

unfoldable pub encode_call_header : CallHeader → Put
encode_call_header c = do
  Encoder.uint32 c.xid
  Encoder.uint32 msg_call
  Encoder.uint32 rpc_version
  Encoder.uint32 c.prog
  Encoder.uint32 c.vers
  Encoder.uint32 c.proc
  encode_opaque_auth c.cred
  encode_opaque_auth c.verf

pub record ReplyHeader : Type 0 where
  pub xid : ℕ
  pub stat : ℕ
  pub verf : OpaqueAuth
  pub accept_stat : ℕ
  pub low : ℕ
  pub high : ℕ
  pub reject_stat : ℕ
  pub auth_stat : ℕ

-- `&ReplyHeader{}` with its xid and reply_stat.
abbrev pub new_reply : ℕ → ℕ → ReplyHeader
new_reply xid stat = record {
  xid = xid;
  stat = stat;
  verf = auth_null;
  accept_stat = 0;
  low = 0;
  high = 0;
  reject_stat = 0;
  auth_stat = 0;
}

-- `if err := d.Err(); err != nil { return nil, err }; return r, nil`
unfoldable pub checked : {A : Type 0} → A → Get (Result A)
checked r = do e ← get_err; pure (elim e [ some x ↦ err (xdr x) | none ↦ ok r ])

-- The low and high of a version mismatch.
unfoldable pub mismatch_range : ReplyHeader → Get ReplyHeader
mismatch_range r = do
  low ← Decoder.uint32
  high ← Decoder.uint32
  pure (record r { low = low; high = high })

unfoldable pub decode_accepted : ℕ → Get (Result ReplyHeader)
decode_accepted xid = do
  verf ← decode_opaque_auth
  accept_stat ← Decoder.uint32
  r ←
      (let r = record (new_reply xid msg_accepted) { verf = verf; accept_stat = accept_stat } in
        if accept_stat == accept_prog_mismatch then mismatch_range r else pure r)
  checked r

unfoldable pub decode_denied : ℕ → Get (Result ReplyHeader)
decode_denied xid = do
  reject_stat ← Decoder.uint32
  let r = record (new_reply xid msg_denied) { reject_stat = reject_stat }
  if reject_stat == reject_rpc_mismatch
      then (do r' ← mismatch_range r; checked r')
      else if reject_stat == reject_auth_error
      then (do s ← Decoder.uint32; checked (record r { auth_stat = s }))
      else pure (err (unknown_reject_stat reject_stat))

unfoldable pub decode_reply_body : ℕ → Get (Result ReplyHeader)
decode_reply_body xid = do
  stat ← Decoder.uint32
  if stat == msg_accepted
      then decode_accepted xid
      else if stat == msg_denied
      then decode_denied xid
      else pure (err (unknown_reply_stat stat))

unfoldable pub decode_reply_header : Get (Result ReplyHeader)
decode_reply_header = do
  xid ← Decoder.uint32
  mtype ← Decoder.uint32
  e ← get_err
  elim e [
    | some x ↦ pure (err (xdr x))
    | none ↦ if mtype == msg_reply then decode_reply_body xid else pure (err (not_reply mtype))
  ]

-- `(*ReplyHeader).Error()`: none for an accepted SUCCESS reply.
unfoldable pub reply_error : ReplyHeader → Option Error
reply_error r =
    if r.stat == msg_accepted
    then (if r.accept_stat == accept_success
        then none
        else if r.accept_stat == accept_prog_mismatch
        then some (prog_mismatch r.low r.high)
        else some (accept_error r.accept_stat))
    else if r.stat == msg_denied
    then (if r.reject_stat == reject_rpc_mismatch
        then some (rpc_mismatch r.low r.high)
        else if r.reject_stat == reject_auth_error
        then some (auth_error r.auth_stat)
        else some (denied r.reject_stat))
    else some (unknown_reply_stat r.stat)
