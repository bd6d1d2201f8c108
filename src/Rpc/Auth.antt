-- ===== src/Rpc/Auth.antt =====
-- rpc/auth.go.
use go_nfs_client.Prelude.{ℕ, ◌%◌, ◌^◌, List, [], length}
use go_nfs_client.Xdr.Io.{Bytes}
use go_nfs_client.Xdr.Encoder
use go_nfs_client.Xdr.Encoder.{Put, each, ◌>>◌}
use go_nfs_client.Xdr.Decoder
use go_nfs_client.Xdr.Decoder.{Get, pure, ◌>>=◌}
use go_nfs_client.Xdr.Codec.{written}

abbrev pub auth_flavor_null : ℕ
auth_flavor_null = 0

abbrev pub auth_flavor_sys : ℕ
auth_flavor_sys = 1

pub record OpaqueAuth : Type 0 where
  pub flavor : ℕ
  pub body : Bytes

unfoldable pub encode_opaque_auth : OpaqueAuth → Put
encode_opaque_auth a = do Encoder.uint32 a.flavor; Encoder.opaque a.body

unfoldable pub decode_opaque_auth : Get OpaqueAuth
decode_opaque_auth = do
  flavor ← Decoder.uint32
  body ← Decoder.opaque
  pure (record { flavor = flavor; body = body })

abbrev pub auth_null : OpaqueAuth
auth_null = record { flavor = auth_flavor_null; body = [] }

pub record AuthSys : Type 0 where
  pub stamp : ℕ
  pub machine_name : Bytes
  pub uid : ℕ
  pub gid : ℕ
  pub gids : List ℕ

unfoldable pub auth_sys_fields : AuthSys → Put
auth_sys_fields c = do
  Encoder.uint32 c.stamp
  Encoder.string c.machine_name
  Encoder.uint32 c.uid
  Encoder.uint32 c.gid
  Encoder.uint32 (length c.gids % 2 ^ 32)
  each Encoder.uint32 c.gids

-- `body()`: the fields, written to a buffer of their own.
unfoldable pub auth_sys_body : AuthSys → Bytes
auth_sys_body c = written (auth_sys_fields c)

unfoldable pub auth_sys_opaque_auth : AuthSys → OpaqueAuth
auth_sys_opaque_auth c = record { flavor = auth_flavor_sys; body = auth_sys_body c }

unfoldable pub encode_auth_sys : AuthSys → Put
encode_auth_sys c = encode_opaque_auth (auth_sys_opaque_auth c)
