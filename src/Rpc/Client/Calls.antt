-- ===== src/Rpc/Client/Calls.antt =====
-- Transaction ids, and what a call returns.
use go_nfs_client.Prelude.{
  ℕ, ◌^◌, ◌≤◌, ◌<◌, ◌≡◌, ◌≢◌, ◌↔◌, refl, ◌∙◌, false, Option, none, some, List, [], ◌++◌, arith,
  length,
}
use go_nfs_client.Xdr.Io.{Bytes, IoError, eof}
use go_nfs_client.Xdr.Encoder.{Put}
use go_nfs_client.Xdr.Decoder.{Get}
use go_nfs_client.Xdr.Codec.{
  buffer, reader, written, Emits, Emits-then, Emits-written, Codec-decodes,
}
use go_nfs_client.Rpc.Auth.{OpaqueAuth}
use go_nfs_client.Rpc.Record.{max_fragment_size, max_message_size}
use go_nfs_client.Rpc.Record.Framing.{
  frame, join, stream, Fit, read_record-frame, read_record-write_record,
}
use go_nfs_client.Rpc.Message.{ok, CallHeader, encode_call_header, msg_call, rpc_version}
use go_nfs_client.Rpc.RoundTrip.{FitsAuth, FitsCall, read_call, call_header-Codec}
use go_nfs_client.Rpc.Replies.{
  Reply, success, FitsReply, IsSuccess, put_reply, header_of, decode_reply_header-put_reply,
  reply_error-none_iff,
}
use go_nfs_client.Rpc.Client.{
  Conn, Client, ClientOptions, alloc_xid, round_trip, decode_reply, finished, request_header,
  encode_request, exchange, call,
}

-- A fresh xid is a nonzero uint32, differs from the one before, and is the one kept.
pub alloc_xid_fresh :
    (c : Client)
    → c.next_id < 2 ^ 32
    → ((alloc_xid c).0 < 2 ^ 32)
      × ((alloc_xid c).0 ≢ 0)
      × ((alloc_xid c).0 ≢ c.next_id)
      × ((alloc_xid c).1.next_id ≡ (alloc_xid c).0)
unfolding alloc_xid
alloc_xid_fresh c h = ground arith

header_of-xid : (xid : ℕ) (r : Reply) → (header_of xid r).xid ≡ xid
header_of-xid xid (success v) = refl
header_of-xid xid _ = refl

-- A reply is taken for the answer exactly if it carries the call's xid, is an accepted SUCCESS, and
-- its results decode.
pub decode_reply-none_iff :
    {S : Type 0} (xid sender : ℕ) (r : Reply) (results : Bytes) (decode : S → Get S) (s : S)
    → sender < 2 ^ 32
    → FitsReply r
    → ((decode_reply xid (written (put_reply sender r) ++ results) (some decode) s).0 ≡ none)
      ↔ ((sender ≡ xid) × IsSuccess r × ((decode s (reader results eof)).1.err ≡ none))
unfolding decode_reply
decode_reply-none_iff xid sender r results decode s sender_fits fits =
    let read = decode_reply_header-put_reply sender r eof results sender_fits fits in
    ground (arith, read, header_of-xid sender r, reply_error-none_iff sender r fits)

-- A connection that takes every write, and will deliver `input`.
abbrev pub open_conn : Bytes → Bytes → IoError → Conn
open_conn sent input ending = record {
  writer = record { sent = sent; fails = λ _ _. none };
  incoming = stream input ending;
  closed = false;
}

round_trip-frame :
    (request sent rest : Bytes) (ending : IoError) (ps : List Bytes) (end : Bytes)
    → length request ≤ max_fragment_size
    → Fit ps end
    → length (join ps end) ≤ max_message_size
    → round_trip request (open_conn sent (frame ps end ++ rest) ending)
      ≡ (ok (join ps end), open_conn (sent ++ frame [] request) rest ending)
unfolding round_trip
round_trip-frame request sent rest ending ps end small fit total = ground (
  arith,
  (read_record-write_record request sent rest ending small).0,
  read_record-frame ps end rest ending fit total,
)

decode_reply-success :
    {S : Type 0} (xid : ℕ) (v : OpaqueAuth) (results : Bytes) (decode : S → Get S) (s : S)
    → xid < 2 ^ 32
    → FitsAuth v
    → (decode s (reader results eof)).1.err ≡ none
    → decode_reply xid (written (put_reply xid (success v)) ++ results) (some decode) s
      ≡ (none, (decode s (reader results eof)).0)
unfolding decode_reply
decode_reply-success xid v results decode s x fits fine =
    let read = decode_reply_header-put_reply xid (success v) eof results x fits in
    ground (arith, read, reply_error-none_iff xid (success v) fits)

encode_request-Emits :
    (h : CallHeader) (args : Put) (bs : Bytes)
    → FitsCall h
    → Emits args bs
    → encode_request h (some args) ≡ buffer (written (encode_call_header h) ++ bs)
unfolding encode_request
encode_request-Emits h args bs fits e =
    let c = call_header-Codec h fits in
    rw (Emits-written (encode_call_header h) c.bytes c.emits)
      (Emits-then (encode_call_header h) args c.bytes bs c.emits e [])

exchange-success :
    {S : Type 0} (xid : ℕ) (request : Bytes) (decode : S → Get S) (s : S) (opts : ClientOptions)
    (n : ℕ) (conn conn' : Conn) (v : OpaqueAuth) (results : Bytes)
    → xid < 2 ^ 32
    → FitsAuth v
    → (decode s (reader results eof)).1.err ≡ none
    → round_trip request conn ≡ (ok (written (put_reply xid (success v)) ++ results), conn')
    → exchange finished xid request
        (some decode)
        s
        (record { conn = conn; opts = opts; next_id = n })
      ≡ (none, (decode s (reader results eof)).0, record { conn = conn'; opts = opts; next_id = n })
unfolding exchange
exchange-success xid request decode s opts n conn conn' v results x fits fine trip =
    ground (arith, trip, decode_reply-success xid v results decode s x fits fine)

call-exchange :
    {S : Type 0} (c : Client) (prog vers proc : ℕ) (args : Put) (request : Bytes)
    (decode : Option (S → Get S)) (s : S)
    → encode_request (request_header (alloc_xid c).1 (alloc_xid c).0 prog vers proc) (some args)
      ≡ buffer request
    → call none finished prog vers proc (some args) decode s c
      ≡ exchange finished (alloc_xid c).0 request decode s (alloc_xid c).1
unfolding call
call-exchange c prog vers proc args request decode s e = ground (arith, e)

-- One whole call. If the connection takes the request and delivers, in whatever fragments, an
-- accepted reply to this call's xid with results that decode, then `Call` returns no error, leaves
-- the decoded results with the caller, has sent exactly one record, and has taken exactly the reply
-- off the connection; a server reads the record's payload back as version 2 of a CALL for the
-- caller's program, version and procedure, and then the arguments.
pub call-success :
    {S : Type 0} (opts : ClientOptions) (next_id prog vers proc : ℕ) (args : Put)
    (arg_bytes : Bytes) (decode : S → Get S) (s : S) (sent rest : Bytes) (ending : IoError)
    (ps : List Bytes) (end results : Bytes) (v : OpaqueAuth)
    → let conn = open_conn sent (frame ps end ++ rest) ending in
      let c : Client = record { conn = conn; opts = opts; next_id = next_id } in
      let xid = (alloc_xid c).0 in
      let h = request_header c xid prog vers proc in
      let request = written (encode_call_header h) ++ arg_bytes in
      FitsCall h
      → Emits args arg_bytes
      → length request ≤ max_fragment_size
      → Fit ps end
      → length (join ps end) ≤ max_message_size
      → join ps end ≡ written (put_reply xid (success v)) ++ results
      → FitsAuth v
      → (decode s (reader results eof)).1.err ≡ none
      → (call none finished prog vers proc (some args) (some decode) s c ≡ (
        none,
        (decode s (reader results eof)).0,
        record {
          conn = open_conn (sent ++ frame [] request) rest ending;
          opts = opts;
          next_id = xid;
        },
      ))
        × (read_call (reader request eof) ≡ ((msg_call, rpc_version, h), reader arg_bytes eof))
unfolding alloc_xid request_header
call-success opts next_id prog vers proc args arg_bytes decode s sent rest ending ps end results v
      fits emits small fit total reply verf fine =
    let conn = open_conn sent (frame ps end ++ rest) ending in
    let c : Client = record { conn = conn; opts = opts; next_id = next_id } in
    let xid = (alloc_xid c).0 in
    let h = request_header c xid prog vers proc in
    let request = written (encode_call_header h) ++ arg_bytes in
    let trip = rw reply at (round_trip-frame request sent rest ending ps end small fit total) in
    (
      call-exchange c prog vers proc args request (some decode) s
            (encode_request-Emits h args arg_bytes fits emits)
          ∙ exchange-success xid request decode s opts xid conn
              (open_conn (sent ++ frame [] request) rest ending) v results fits.xid_fits verf fine
              trip,
      Codec-decodes _ _ _ (call_header-Codec h fits) eof arg_bytes,
    )
