-- ===== src/Examples/WireRuns.antt =====
-- A lookup, down to the bytes on the connection.
use go_nfs_client.Prelude.{◌≡◌, refl, some, [], ◌∷◌, ◌++◌, length, arith}
use go_nfs_client.Xdr.Io.{Bytes, eof, put_uint32}
use go_nfs_client.Xdr.Encoder
use go_nfs_client.Xdr.Encoder.{each, skip}
use go_nfs_client.Xdr.Codec.{reader, written}
use go_nfs_client.Rpc.Auth.{encode_opaque_auth}
use go_nfs_client.Rpc.Record.Framing.{frame, join}
use go_nfs_client.Rpc.Message.{CallHeader, encode_call_header, msg_call, rpc_version}
use go_nfs_client.Rpc.RoundTrip.{read_call, FitsAuth, FitsCall}
use go_nfs_client.Rpc.Replies.{success, put_reply, put_body, put_accepted}
use go_nfs_client.Rpc.Client.{Client, ClientOptions, alloc_xid, request_header}
use go_nfs_client.Nfs4.Types.{nfs4_ok}
use go_nfs_client.Nfs4.Args.{
  putfh_args, lookup_args, getfh_args, encode_arg, encode_putfh, encode_lookup, encode_getfh,
}
use go_nfs_client.Nfs4.Replies.Ops.{put_getfh_res}
use go_nfs_client.Nfs4.Compound.{encode_compound}
use go_nfs_client.Nfs4.Compound.Requests.{read_compound}
use go_nfs_client.Nfs4.Compound.Replies.{put_compound_res, put_resop}
use go_nfs_client.Nfs4.Conn.Stack.{Environment}
use go_nfs_client.Nfs4.Conn.Action.{new_conn, ok}
use go_nfs_client.Nfs4.Conn.Reading.{lookup}
use go_nfs_client.Nfs4.Conn.Walks.{lookup_request, found_resops}
use go_nfs_client.Nfs4.Conn.Wire.{
  program, version4, proc_compound, over_client, client_at, lookup-wire,
}
use go_nfs_client.Examples.ConnRuns.{config, fresh, serving, nine, reply}

abbrev env : Environment Client
env = serving (λ client. ([], client))

abbrev opts : ClientOptions
opts = record { cred = record { flavor = 0; body = [] }; verf = record { flavor = 0; body = [] } }

abbrev answer : Bytes
answer =
    written (put_reply 42 (success (record { flavor = 0; body = [] })))
    ++ reply nfs4_ok (found_resops nine)

abbrev before : Client
before = client_at opts [] (frame [] answer ++ []) eof 41

abbrev header : CallHeader
header = request_header before 42 program version4 proc_compound

abbrev args : Bytes
args = written (encode_compound (lookup_request fresh (1 ∷ []) (97 ∷ [])))

abbrev request : Bytes
request = written (encode_call_header header) ++ args

length-answer : length answer ≡ 68
unfolding put_reply put_body put_accepted put_compound_res put_resop put_getfh_res each skip
    encode_opaque_auth Encoder.opaque Encoder.string Encoder.uint32 Encoder.write Encoder.pad
    Encoder.◌>>◌ put_uint32
length-answer = refl

length-request : length request ≡ 80
unfolding new_conn request_header encode_call_header encode_opaque_auth encode_compound encode_arg
    encode_putfh encode_lookup encode_getfh each skip Encoder.opaque Encoder.string Encoder.uint32
    Encoder.write Encoder.pad Encoder.◌>>◌ put_uint32
length-request = refl

lookup-wire_example :
    (lookup (over_client env) (1 ∷ []) (97 ∷ []) fresh (record { sessions = []; rest = before }) ≡ (
      ok nine,
      fresh,
      record { sessions = []; rest = client_at opts ([] ++ frame [] request) [] eof 42 },
    ))
    × (read_call (reader request eof) ≡ ((msg_call, rpc_version, header), reader args eof))
    × (read_compound (reader args eof) ≡ (
      (
        [],
        0,
        some (putfh_args (record { fh = 1 ∷ [] }))
            ∷ some (lookup_args (record { name = 97 ∷ [] }))
            ∷ some getfh_args
            ∷ [],
      ),
      reader [] eof,
    ))
unfolding new_conn alloc_xid put_reply join request_header
lookup-wire_example =
    let auth : FitsAuth (record { flavor = 0; body = [] }) = record {
      flavor_fits = omega arith;
      body_fits = omega arith;
    } in
    let fits : FitsCall header = record {
      xid_fits = omega arith;
      prog_fits = omega arith;
      vers_fits = omega arith;
      proc_fits = omega arith;
      cred_fits = auth;
      verf_fits = auth;
    } in
    lookup-wire env config.retry fresh (1 ∷ []) (97 ∷ []) nine [] opts 41 [] [] eof [] answer []
      (record { flavor = 0; body = [] }) refl refl (omega arith) (omega arith) (omega arith)
      (omega arith) (omega arith) fits auth (omega (arith, length-request))
      (tt, omega (arith, length-answer)) (omega (arith, length-answer)) refl
