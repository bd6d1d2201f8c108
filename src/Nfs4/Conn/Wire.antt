-- ===== src/Nfs4/Conn/Wire.antt =====
-- RPCCaller of nfs4/transport.go over the RPC client of rpc/client.go, and Lookup on top of it, down to the bytes
-- on the connection.
use go_nfs_client.Prelude.{
  ℕ, ◌≡◌, ◌≤◌, refl, ap, Option, some, none, List, [], ◌∷◌, ◌++◌, length, arith,
}
use go_nfs_client.Xdr.Io.{Bytes, IoError, eof}
use go_nfs_client.Xdr.Decoder.{Get, pure}
use go_nfs_client.Xdr.Codec.{reader, written, Emits-written, Codec-whole}
use go_nfs_client.Rpc.Auth.{OpaqueAuth}
use go_nfs_client.Rpc.Record.{max_fragment_size, max_message_size}
use go_nfs_client.Rpc.Record.Framing.{frame, join, Fit}
use go_nfs_client.Rpc.Message.{Error, encode_call_header, msg_call, rpc_version}
use go_nfs_client.Rpc.RoundTrip.{FitsAuth, FitsCall, read_call}
use go_nfs_client.Rpc.Replies.{success, put_reply}
use go_nfs_client.Rpc.Client.{Client, ClientOptions, alloc_xid, finished, request_header}
use go_nfs_client.Rpc.Client
use go_nfs_client.Rpc.Client.Calls.{open_conn, call-success}
use go_nfs_client.Nfs4.Types.{nfs4_ok, U32, Small}
use go_nfs_client.Nfs4.Args.{putfh_args, lookup_args, getfh_args}
use go_nfs_client.Nfs4.Session.{Session}
use go_nfs_client.Nfs4.Retry.{RetryConfig}
use go_nfs_client.Nfs4.Compound.{encode_compound}
use go_nfs_client.Nfs4.Compound.Requests.{read_compound, compound-Codec}
use go_nfs_client.Nfs4.Compound.Replies.{put_compound_res}
use go_nfs_client.Nfs4.Conn.Stack.{World, Environment, rpc_caller, retry_caller}
use go_nfs_client.Nfs4.Conn.Action.{Conn, ok}
use go_nfs_client.Nfs4.Conn.Reading.{lookup}
use go_nfs_client.Nfs4.Conn.Carried.{Delivered, rpc-Carried, retry-Carried}
use go_nfs_client.Nfs4.Conn.Walks.{lookup_request, found_resops, lookup_found}

abbrev pub program : ℕ
program = 100003

abbrev pub version4 : ℕ
version4 = 4

abbrev pub proc_compound : ℕ
proc_compound = 1

-- The number of an error of package rpc.
abbrev pub rpc_error : Option Error → Option ℕ
rpc_error none = none
rpc_error (some e) = some 5

-- `t.rpc.Call(ctx, Program, Version4, ProcCompound, …)`, in an environment whose world holds the client, and whose
-- context is never done.
unfoldable pub over_client : Environment Client → Environment Client
over_client env = record env {
  rpc_call = λ S args decode s w.
      let (e, s', client) =
        Client.call none finished program version4 proc_compound (some args) (some decode) s
          w.rest in
      (rpc_error e, s', record w { rest = client });
}

-- The client before a call and after it: the bytes sent, the bytes to come, and the last xid.
abbrev pub client_at : ClientOptions → Bytes → Bytes → IoError → ℕ → Client
client_at opts sent incoming ending xid = record {
  conn = open_conn sent incoming ending;
  opts = opts;
  next_id = xid;
}

module _ (env : Environment Client) (cfg : RetryConfig) (c : Conn) (dir name fh : Bytes)
    (sessions : List Session) (opts : ClientOptions) (next_id : ℕ) (sent rest : Bytes)
    (ending : IoError) (ps : List Bytes) (end tag : Bytes) (v : OpaqueAuth) where
  -- One Lookup, from the call down to the bytes on the connection and back. If the connection takes
  -- the request and delivers, in whatever fragments, the accepted reply of a server that follows RFC
  -- 7530 and that finds the name, then Lookup returns the handle that the server sent; exactly one record
  -- has gone out, which a server reads back as a CALL of NFSPROC4_COMPOUND with PUTFH of the
  -- directory, LOOKUP of the name and GETFH; and exactly the reply is taken off the connection, if
  -- the connection uses NFSv4.0, all fields fit, and the context is not done.
  pub lookup-wire :
      let before = client_at opts sent (frame ps end ++ rest) ending next_id in
      let xid = (alloc_xid before).0 in
      let h = request_header before xid program version4 proc_compound in
      let args = written (encode_compound (lookup_request c dir name)) in
      let request = written (encode_call_header h) ++ args in
      let w : World Client = record { sessions = sessions; rest = before } in
      c.caller ≡ retry_caller cfg rpc_caller
      → env.ctx_err w ≡ none
      → Small dir
      → Small name
      → Small fh
      → Small tag
      → U32 c.cfg.minor_version
      → FitsCall h
      → FitsAuth v
      → length request ≤ max_fragment_size
      → Fit ps end
      → length (join ps end) ≤ max_message_size
      → join ps end
        ≡ written (put_reply xid (success v))
          ++ written (put_compound_res nfs4_ok tag (found_resops fh))
      → (lookup (over_client env) dir name c w ≡ (
        ok fh,
        c,
        record {
          sessions = sessions;
          rest = client_at opts (sent ++ frame [] request) rest ending xid;
        },
      ))
        × (read_call (reader request eof) ≡ ((msg_call, rpc_version, h), reader args eof))
        × (read_compound (reader args eof) ≡ (
          (
            [],
            c.cfg.minor_version,
            some (putfh_args (record { fh = dir }))
                ∷ some (lookup_args (record { name = name }))
                ∷ some getfh_args
                ∷ [],
          ),
          reader [] eof,
        ))
  unfolding over_client pure
  lookup-wire stack ctx hdir hname hfh htag hmin hcall hauth small fit total reply =
      let before = client_at opts sent (frame ps end ++ rest) ending next_id in
      let xid = (alloc_xid before).0 in
      let h = request_header before xid program version4 proc_compound in
      let codec =
        compound-Codec (lookup_request c dir name) (omega arith) hmin (omega arith)
          (hdir, (hname, (tt, tt))) in
      let args = written (encode_compound (lookup_request c dir name)) in
      let request = written (encode_call_header h) ++ args in
      let w : World Client = record { sessions = sessions; rest = before } in
      let w' : World Client = record {
        sessions = sessions;
        rest = client_at opts (sent ++ frame [] request) rest ending xid;
      } in
      let called = λ (S : Type 0) (decode : S → Get S) (s : S).
        call-success opts next_id program version4 proc_compound
          (encode_compound (lookup_request c dir name)) args decode s sent rest ending ps end
          (written (put_compound_res nfs4_ok tag (found_resops fh))) v hcall
          (rw (Emits-written _ codec.bytes codec.emits) codec.emits) small fit total reply hauth in
      let sends : Delivered (over_client env) (encode_compound (lookup_request c dir name)) w
          (written (put_compound_res nfs4_ok tag (found_resops fh))) w' =
        record {
          delivered = λ S decode s fine.
              ap (λ x. (rpc_error x.0, x.1, record w { rest = x.2 })) (called S decode s fine).0;
        } in
      let carried = rw (← stack) at (
        retry-Carried (over_client env) cfg rpc_caller (lookup_request c dir name) w w' nfs4_ok
          (found_resops fh) ctx (omega arith) (omega arith)
          (rpc-Carried (over_client env) (lookup_request c dir name) w w' nfs4_ok tag
            (found_resops fh) (omega arith) htag (omega arith) sends)) in
      (
        lookup_found (over_client env) dir name fh c w w' hfh carried,
        (called Unit pure tt refl).1,
        Codec-whole _ _ _ eof codec,
      )
