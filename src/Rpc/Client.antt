-- ===== src/Rpc/Client.antt =====
-- rpc/client.go: a synchronous client over one connection. Calls hold the client's mutex, so one
-- call is one step of its state.
pub mod Calls
use go_nfs_client.Prelude.{
  ℕ, ◌+◌, ◌%◌, ◌^◌, Bool, true, Option, none, some, [], if◌then◌else◌, ◌==◌,
}
use go_nfs_client.Xdr.Io.{Bytes, eof, Stream, Writer}
use go_nfs_client.Xdr.Encoder.{Encoder, Put, ◌>>◌, skip}
use go_nfs_client.Xdr.Decoder.{Get}
use go_nfs_client.Xdr.Codec.{buffer, reader}
use go_nfs_client.Rpc.Auth.{OpaqueAuth}
use go_nfs_client.Rpc.Record.{write_record, read_record, message, failed}
use go_nfs_client.Rpc.Message.{
  Error, xdr, write_failed, read_failed, xid_mismatch, ctx, encode_failed, Result, ok, err,
  CallHeader, encode_call_header, decode_reply_header, reply_error,
}

-- An io.ReadWriteCloser.
pub record Conn : Type 0 where
  pub writer : Writer
  pub incoming : Stream
  pub closed : Bool

pub record ClientOptions : Type 0 where
  pub cred : OpaqueAuth
  pub verf : OpaqueAuth

pub record Client : Type 0 where
  pub conn : Conn
  pub opts : ClientOptions
  pub next_id : ℕ

-- `seed` is what rand.Uint32 returns.
unfoldable pub new_client : Conn → ClientOptions → ℕ → Client
new_client conn opts seed = record { conn = conn; opts = opts; next_id = seed }

unfoldable pub close : Client → Client
close c = record c { conn = record (c.conn) { closed = true } }

unfoldable pub alloc_xid : Client → ℕ × Client
alloc_xid c =
    let next = (c.next_id + 1) % 2 ^ 32 in
    let xid = if next == 0 then 1 else next in (xid, record c { next_id = xid })

-- The goroutine's part: the request record out, the reply record in.
unfoldable pub round_trip : Bytes → Conn → Result Bytes × Conn
round_trip request conn =
    let (e, w) = write_record request conn.writer in
    elim e [
      | some x ↦ (err (write_failed x), record conn { writer = w })
      | none ↦
          let (m, r) = read_record conn.incoming in
          elim m [
            | failed x ↦ (err (read_failed x), record conn { writer = w; incoming = r })
            | message reply ↦ (ok reply, record conn { writer = w; incoming = r })
          ]
    ]

-- What `decodeRes` works on is a state of the caller's, `S`. A nil `decodeRes` is `none`.
unfoldable pub decode_reply : {S : Type 0} → ℕ → Bytes → Option (S → Get S) → S → Option Error × S
decode_reply xid reply decode_res s =
    let (header, d) = decode_reply_header (reader reply eof) in
    elim header [
      | err e ↦ (some e, s)
      | ok hdr ↦
          if hdr.xid == xid
          then elim (reply_error hdr) [
            | some e ↦ (some e, s)
            | none ↦ elim decode_res [
              | none ↦ (none, s)
              | some decode ↦
                  let (s', d') = decode s d in
                  (elim d'.err [ some x ↦ some (xdr x) | none ↦ none ], s')
            ]
          ]
          else (some (xid_mismatch hdr.xid xid), s)
    ]

-- Which arm of the `select` is taken: the round trip, or a context that is done with error `n`. The
-- goroutine then leaves the connection in a state of its own, wherever it was.
pub data Race : Type 0 where
  finished : Race
  cancelled : ℕ → Conn → Race

unfoldable pub request_header : Client → ℕ → ℕ → ℕ → ℕ → CallHeader
request_header c xid prog vers proc = record {
  xid = xid;
  prog = prog;
  vers = vers;
  proc = proc;
  cred = c.opts.cred;
  verf = c.opts.verf;
}

unfoldable pub encode_request : CallHeader → Option Put → Encoder
encode_request hdr encode_args =
    (encode_call_header hdr >> (elim encode_args [ none ↦ skip | some args ↦ args ])) (buffer [])

-- The part of a call behind the mutex, once the request is encoded.
unfoldable pub exchange :
    {S : Type 0} → Race → ℕ → Bytes → Option (S → Get S) → S → Client → Option Error × S × Client
exchange (cancelled n conn) xid request decode_res s c =
    (some (ctx n), s, record c { conn = record conn { closed = true } })
exchange finished xid request decode_res s c =
    let (r, conn) = round_trip request c.conn in
    elim r [
      | err e ↦ (some e, s, record c { conn = conn })
      | ok reply ↦
          let (e, s') = decode_reply xid reply decode_res s in (e, s', record c { conn = conn })
    ]

-- `ctx_err` is `ctx.Err()` at the call.
unfoldable pub call :
    {S : Type 0}
    → Option ℕ
    → Race
    → ℕ
    → ℕ
    → ℕ
    → Option Put
    → Option (S → Get S)
    → S
    → Client
    → Option Error × S × Client
call ctx_err race prog vers proc encode_args decode_res s c = elim ctx_err [
  | some n ↦ (some (ctx n), s, c)
  | none ↦
      let (xid, c') = alloc_xid c in
      let enc = encode_request (request_header c' xid prog vers proc) encode_args in
      elim enc.err [
        | some x ↦ (some (encode_failed x), s, c')
        | none ↦ exchange race xid enc.sent decode_res s c'
      ]
]
