-- ===== src/Examples/RpcRuns.antt =====
-- rpc/*.go on concrete inputs.
use go_nfs_client.Prelude.{
  ℕ, ◌+◌, ◌%◌, ◌^◌, ◌≤◌, ◌≡◌, ◌≢◌, ◌↔◌, refl, none, some, [], ◌∷◌, ◌++◌, arith, length,
  length-replicate, replicate,
}
use go_nfs_client.Xdr.Io.{Bytes, eof, put_uint32, read_full, big_endian}
use go_nfs_client.Xdr.Encoder
use go_nfs_client.Xdr.Encoder.{Put}
use go_nfs_client.Xdr.Decoder
use go_nfs_client.Xdr.Decoder.{Get, default_max_len}
use go_nfs_client.Xdr.Codec.{reader, written}
use go_nfs_client.Xdr.RoundTrip.{uint32-Emits}
use go_nfs_client.Rpc.Auth.{AuthSys, auth_null, auth_sys_fields, auth_sys_body, encode_opaque_auth}
use go_nfs_client.Rpc.RoundTrip.{read_call}
use go_nfs_client.Rpc.Message.{ok, encode_call_header, decode_reply_header, msg_call, rpc_version}
use go_nfs_client.Rpc.Replies.{
  Reply, success, auth_failed, IsSuccess, put_accepted, put_body, put_reply, header_of,
  decode_reply_header-put_reply,
}
use go_nfs_client.Rpc.Truncated.{decode_reply_header_truncated}
use go_nfs_client.Rpc.Record.{write_record, read_record, message, max_message_size, fragment_size}
use go_nfs_client.Rpc.Record.Framing.{
  frame, join, stream, read_record-frame, read_record-write_record,
}
use go_nfs_client.Rpc.Record.Limits.{read_record-message-le, write_record_wraps}
use go_nfs_client.Rpc.Client.{
  Client, ClientOptions, alloc_xid, request_header, call, finished, decode_reply,
}
use go_nfs_client.Rpc.Client.Calls.{decode_reply-none_iff, call-success, open_conn}

two_fragments : Bytes
two_fragments = 0 ∷ 0 ∷ 0 ∷ 2 ∷ 8 ∷ 9 ∷ 128 ∷ 0 ∷ 0 ∷ 1 ∷ 7 ∷ 5 ∷ []

read_record_runs :
    read_record (stream two_fragments eof) ≡ (message (8 ∷ 9 ∷ 7 ∷ []), stream (5 ∷ []) eof)
unfolding read_record two_fragments read_full big_endian
read_record_runs = refl

read_record-frame_example :
    read_record (stream (frame ((8 ∷ 9 ∷ []) ∷ []) (7 ∷ []) ++ 5 ∷ []) eof)
    ≡ (message (join ((8 ∷ 9 ∷ []) ∷ []) (7 ∷ [])), stream (5 ∷ []) eof)
unfolding join
read_record-frame_example =
    read_record-frame ((8 ∷ 9 ∷ []) ∷ []) (7 ∷ []) (5 ∷ []) eof (omega arith) (omega arith)

read_record-write_record_example :
    (write_record (8 ∷ 9 ∷ []) (record { sent = []; fails = λ _ _. none })
      ≡ (none, record { sent = [] ++ frame [] (8 ∷ 9 ∷ []); fails = λ _ _. none }))
    × (read_record (stream (frame [] (8 ∷ 9 ∷ []) ++ 5 ∷ []) eof)
        ≡ (message (8 ∷ 9 ∷ []), stream (5 ∷ []) eof))
read_record-write_record_example =
    read_record-write_record (8 ∷ 9 ∷ []) [] (5 ∷ []) eof (omega arith)

read_record-message-le_example : 3 ≤ max_message_size
read_record-message-le_example =
    read_record-message-le (stream two_fragments eof) (stream (5 ∷ []) eof) (8 ∷ 9 ∷ 7 ∷ [])
      read_record_runs

zeros : ℕ → Bytes
zeros n = replicate n 0

length-zeros : (n : ℕ) → length (zeros n) ≡ n
unfolding zeros
length-zeros n = length-replicate n 0

-- A payload of 4 GiB and 5 bytes.
huge : Bytes
huge = zeros (2 ^ 32 + 5)

length-huge : length huge ≡ 2 ^ 32 + 5
unfolding huge
length-huge = length-zeros (2 ^ 32 + 5)

write_record_wraps_example :
    ((write_record huge (record { sent = []; fails = λ _ _. none })).0 ≡ none)
    × ((write_record huge (record { sent = []; fails = λ _ _. none })).1.sent
        ≡ ([] ++ put_uint32 (length huge % 2 ^ 32 + 2 ^ 31)) ++ huge)
    × (fragment_size (length huge % 2 ^ 32 + 2 ^ 31) ≢ length huge)
write_record_wraps_example =
    write_record_wraps huge [] (omega (arith, length-huge)) (omega (arith, length-huge))

member : AuthSys
member = record { stamp = 1; machine_name = 104 ∷ []; uid = 1000; gid = 100; gids = 100 ∷ 27 ∷ [] }

auth_sys_runs :
    auth_sys_body member
    ≡ 0 ∷ 0 ∷ 0 ∷ 1 ∷ 0 ∷ 0 ∷ 0 ∷ 1 ∷ 104 ∷ 0 ∷ 0 ∷ 0 ∷ 0 ∷ 0 ∷ 3 ∷ 232 ∷ 0 ∷ 0 ∷ 0 ∷ 100 ∷ 0 ∷ 0
      ∷ 0 ∷ 2 ∷ 0 ∷ 0 ∷ 0 ∷ 100 ∷ 0 ∷ 0 ∷ 0 ∷ 27 ∷ []
unfolding auth_sys_body auth_sys_fields member Encoder.string Encoder.uint32 Encoder.write
    Encoder.pad Encoder.each Encoder.◌>>◌ Encoder.skip put_uint32
auth_sys_runs = refl

denied_call : Reply
denied_call = auth_failed 5

decode_reply_header-put_reply_example :
    decode_reply_header (reader (written (put_reply 42 denied_call) ++ 9 ∷ []) eof)
    ≡ (ok (header_of 42 denied_call), reader (9 ∷ []) eof)
unfolding denied_call
decode_reply_header-put_reply_example =
    decode_reply_header-put_reply 42 denied_call eof (9 ∷ []) (omega arith) (omega arith)

denied_bytes :
    written (put_reply 42 denied_call)
    ≡ (0 ∷ 0 ∷ 0 ∷ 42 ∷ 0 ∷ 0 ∷ 0 ∷ 1 ∷ 0 ∷ 0 ∷ 0 ∷ 1 ∷ 0 ∷ 0 ∷ 0 ∷ 1 ∷ 0 ∷ 0 ∷ 0 ∷ []) ++ 5 ∷ []
unfolding denied_call put_reply put_body Encoder.uint32 Encoder.write Encoder.◌>>◌ put_uint32
denied_bytes = refl

decode_reply_header_truncated_example :
    (decode_reply_header (
      reader
        (0 ∷ 0 ∷ 0 ∷ 42 ∷ 0 ∷ 0 ∷ 0 ∷ 1 ∷ 0 ∷ 0 ∷ 0 ∷ 1 ∷ 0 ∷ 0 ∷ 0 ∷ 1 ∷ 0 ∷ 0 ∷ 0 ∷ [])
        eof)).0
    ≢ ok (header_of 42 denied_call)
unfolding denied_call
decode_reply_header_truncated_example =
    decode_reply_header_truncated 42 denied_call
      (0 ∷ 0 ∷ 0 ∷ 42 ∷ 0 ∷ 0 ∷ 0 ∷ 1 ∷ 0 ∷ 0 ∷ 0 ∷ 1 ∷ 0 ∷ 0 ∷ 0 ∷ 1 ∷ 0 ∷ 0 ∷ 0 ∷ []) [] 5 eof
      (omega arith) (omega arith) denied_bytes (header_of 42 denied_call)

null_opts : ClientOptions
null_opts = record { cred = auth_null; verf = auth_null }

-- A client at the end of the id space: the next id skips 0.
wrapping : Client
unfolding null_opts
wrapping = record { conn = open_conn [] [] eof; opts = null_opts; next_id = 0xffff_ffff }

alloc_xid_runs : (alloc_xid wrapping).0 ≡ 1
unfolding alloc_xid wrapping
alloc_xid_runs = refl

-- The results of the calls below are one uint32.
read_word : ℕ → Get ℕ
read_word _ = Decoder.uint32

decode_reply-none_iff_example :
    ((decode_reply 42
        (written (put_reply 41 (success auth_null)) ++ 0 ∷ 0 ∷ 0 ∷ 9 ∷ [])
        (some read_word)
        0).0
      ≡ none)
    ↔ ((◌≡◌ {A = ℕ} 41 42)
        × IsSuccess (success auth_null)
        × ((read_word 0 (reader (0 ∷ 0 ∷ 0 ∷ 9 ∷ []) eof)).1.err ≡ none))
decode_reply-none_iff_example =
    decode_reply-none_iff 42 41 (success auth_null) (0 ∷ 0 ∷ 0 ∷ 9 ∷ []) read_word 0 (omega arith)
      (omega arith)

-- The server's answer to call 42: accepted, with the word 9.
answer : Bytes
answer = written (put_reply 42 (success auth_null)) ++ put_uint32 9

answer_bytes :
    answer
    ≡ 0 ∷ 0 ∷ 0 ∷ 42 ∷ 0 ∷ 0 ∷ 0 ∷ 1 ∷ 0 ∷ 0 ∷ 0 ∷ 0 ∷ 0 ∷ 0 ∷ 0 ∷ 0 ∷ 0 ∷ 0 ∷ 0 ∷ 0 ∷ 0 ∷ 0 ∷ 0 ∷ 0
      ∷ 0 ∷ 0 ∷ 0 ∷ 9 ∷ []
unfolding answer put_reply put_body put_accepted encode_opaque_auth Encoder.opaque Encoder.uint32
    Encoder.write Encoder.pad Encoder.◌>>◌ put_uint32
answer_bytes = refl

ready : Client
unfolding null_opts
ready = record { conn = open_conn [] (frame [] answer ++ []) eof; opts = null_opts; next_id = 41 }

ready_request : Bytes
unfolding ready
ready_request = written (encode_call_header (request_header ready 42 100003 4 1)) ++ put_uint32 5

length-ready_request : length ready_request ≡ 44
unfolding ready_request request_header encode_call_header encode_opaque_auth Encoder.opaque
    Encoder.uint32 Encoder.write Encoder.pad Encoder.◌>>◌ put_uint32
length-ready_request = refl

call-success_example :
    (call none finished 100003 4 1 (some (Encoder.uint32 5)) (some read_word) 0 ready ≡ (
      none,
      9,
      record {
        conn = open_conn ([] ++ frame [] ready_request) [] eof;
        opts = null_opts;
        next_id = 42;
      },
    ))
    × (read_call (reader ready_request eof)
        ≡ ((msg_call, rpc_version, request_header ready 42 100003 4 1), reader (put_uint32 5) eof))
unfolding ready ready_request read_word alloc_xid join answer Decoder.uint32 Decoder.read
    Decoder.◌>>=◌ Decoder.pure put_uint32 request_header null_opts encode_call_header
    encode_opaque_auth Encoder.opaque Encoder.uint32 Encoder.write Encoder.pad Encoder.◌>>◌
    put_reply put_body put_accepted
call-success_example =
    call-success null_opts 41 100003 4 1 (Encoder.uint32 5) (put_uint32 5) read_word 0 [] [] eof []
      answer (put_uint32 9) auth_null (omega arith) (uint32-Emits 5) (omega arith) (omega arith)
      (omega arith) refl (omega arith) refl
