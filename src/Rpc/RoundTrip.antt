-- ===== src/Rpc/RoundTrip.antt =====
-- Credentials and headers read back as they were written.
use go_nfs_client.Prelude.{
  ℕ, ◌%◌, ◌^◌, ◌≤◌, ◌<◌, ◌≡◌, refl, List, [], ◌∷◌, ◌++◌, append-nil, All, length, arith,
}
use go_nfs_client.Xdr.Io.{Bytes, IoError}
use go_nfs_client.Xdr.Encoder
use go_nfs_client.Xdr.Encoder.{Put, each, ◌>>◌}
use go_nfs_client.Xdr.Decoder
use go_nfs_client.Xdr.Decoder.{Get, pure, times, default_max_len, ◌>>=◌}
use go_nfs_client.Xdr.Codec.{
  Codec, Codec-then, Codec-map, Codec-each, reader, written, Codec-decodes,
}
use go_nfs_client.Xdr.RoundTrip.{uint32-Codec, opaque-Codec, string-Codec}
use go_nfs_client.Rpc.Auth.{
  OpaqueAuth, AuthSys, auth_flavor_sys, auth_sys_body, auth_sys_opaque_auth, encode_auth_sys,
  encode_opaque_auth, decode_opaque_auth, auth_sys_fields,
}
use go_nfs_client.Rpc.Message.{CallHeader, encode_call_header, msg_call, rpc_version}

-- A 32-bit flavor, and a body within the decoder's limit.
pub record FitsAuth (a : OpaqueAuth) : Type 0 where
  pub flavor_fits : a.flavor < 2 ^ 32
  pub body_fits : length a.body ≤ default_max_len

pub opaque_auth-Codec :
    (a : OpaqueAuth) → FitsAuth a → Codec (encode_opaque_auth a) decode_opaque_auth a
unfolding encode_opaque_auth decode_opaque_auth
opaque_auth-Codec a h =
    Codec-then _ (uint32-Codec a.flavor h.flavor_fits)
      (Codec-map (λ b. record { flavor = a.flavor; body = b }) (opaque-Codec a.body h.body_fits))

pub uint32s-Codec :
    (xs : List ℕ)
    → All (λ x. x < 2 ^ 32) xs
    → Codec (each Encoder.uint32 xs) (times (length xs) Decoder.uint32) xs
uint32s-Codec xs h = Codec-each Encoder.uint32 Decoder.uint32 xs (all xs h)
  where
    all :
        (xs : List ℕ)
        → All (λ x. x < 2 ^ 32) xs
        → All (λ x. Codec (Encoder.uint32 x) Decoder.uint32 x) xs
    all [] h = tt
    all (x ∷ xs) h = (uint32-Codec x h.0, all xs h.1)

-- authsys_parms as RFC 5531 lays it out, read in its order.
pub read_auth_sys : Get AuthSys
read_auth_sys = do
  stamp ← Decoder.uint32
  name ← Decoder.string
  uid ← Decoder.uint32
  gid ← Decoder.uint32
  n ← Decoder.uint32
  gids ← times n Decoder.uint32
  pure (record { stamp = stamp; machine_name = name; uid = uid; gid = gid; gids = gids })

pub record FitsAuthSys (c : AuthSys) : Type 0 where
  pub stamp_fits : c.stamp < 2 ^ 32
  pub name_fits : length c.machine_name ≤ default_max_len
  pub uid_fits : c.uid < 2 ^ 32
  pub gid_fits : c.gid < 2 ^ 32
  pub count_fits : length c.gids < 2 ^ 32
  pub gids_fit : All (λ g. g < 2 ^ 32) c.gids

auth_sys-Codec : (c : AuthSys) → FitsAuthSys c → Codec (auth_sys_fields c) read_auth_sys c
unfolding auth_sys_fields read_auth_sys
auth_sys-Codec c h =
    let e : length c.gids % 2 ^ 32 ≡ length c.gids = omega arith in
    rw e (
      Codec-then _ (uint32-Codec c.stamp h.stamp_fits) (
        Codec-then _ (string-Codec c.machine_name h.name_fits) (
          Codec-then _ (uint32-Codec c.uid h.uid_fits) (
            Codec-then _ (uint32-Codec c.gid h.gid_fits) (
              Codec-then _ (uint32-Codec (length c.gids) h.count_fits) (
                Codec-map
                  (λ gs. record {
                    stamp = c.stamp;
                    machine_name = c.machine_name;
                    uid = c.uid;
                    gid = c.gid;
                    gids = gs;
                  })
                  (uint32s-Codec c.gids h.gids_fit)))))))

-- A server that follows RFC 5531 reads the credential's flavor and body, and in the body the fields
-- of the AuthSys that was encoded, with nothing left over.
pub encode_auth_sys_lem :
    (c : AuthSys) (ending : IoError) (rest : Bytes)
    → FitsAuthSys c
    → length (auth_sys_body c) ≤ default_max_len
    → (decode_opaque_auth (reader (written (encode_auth_sys c) ++ rest) ending)
        ≡ (auth_sys_opaque_auth c, reader rest ending))
      × ((auth_sys_opaque_auth c).flavor ≡ auth_flavor_sys)
      × (read_auth_sys (reader (auth_sys_opaque_auth c).body ending) ≡ (c, reader [] ending))
unfolding encode_auth_sys auth_sys_opaque_auth auth_sys_body
encode_auth_sys_lem c ending rest h small = (
  Codec-decodes _ _ _
      (opaque_auth-Codec (auth_sys_opaque_auth c)
        (record { flavor_fits = omega arith; body_fits = small }))
      ending rest,
  refl,
  rw append-nil at (Codec-decodes _ _ _ (auth_sys-Codec c h) ending []),
)

-- rpc_msg with a call_body as RFC 5531 lays it out: the message type, the RPC version, the rest.
pub read_call : Get (ℕ × ℕ × CallHeader)
read_call = do
  xid ← Decoder.uint32
  mtype ← Decoder.uint32
  rpcvers ← Decoder.uint32
  prog ← Decoder.uint32
  vers ← Decoder.uint32
  proc ← Decoder.uint32
  cred ← decode_opaque_auth
  verf ← decode_opaque_auth
  pure (
    mtype,
    rpcvers,
    record { xid = xid; prog = prog; vers = vers; proc = proc; cred = cred; verf = verf },
  )

pub record FitsCall (c : CallHeader) : Type 0 where
  pub xid_fits : c.xid < 2 ^ 32
  pub prog_fits : c.prog < 2 ^ 32
  pub vers_fits : c.vers < 2 ^ 32
  pub proc_fits : c.proc < 2 ^ 32
  pub cred_fits : FitsAuth c.cred
  pub verf_fits : FitsAuth c.verf

pub call_header-Codec :
    (c : CallHeader)
    → FitsCall c
    → Codec (encode_call_header c) read_call (msg_call, rpc_version, c)
unfolding encode_call_header read_call
call_header-Codec c h = Codec-then _ (uint32-Codec c.xid h.xid_fits) (
    Codec-then _ (uint32-Codec msg_call (omega arith)) (
      Codec-then _ (uint32-Codec rpc_version (omega arith)) (
        Codec-then _ (uint32-Codec c.prog h.prog_fits) (
          Codec-then _ (uint32-Codec c.vers h.vers_fits) (
            Codec-then _ (uint32-Codec c.proc h.proc_fits) (
              Codec-then _ (opaque_auth-Codec c.cred h.cred_fits) (
                Codec-map (λ v. (msg_call, rpc_version, record c { verf = v }))
                  (opaque_auth-Codec c.verf h.verf_fits))))))))
