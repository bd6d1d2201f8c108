-- ===== src/Nfs4/Compound/Requests.antt =====
-- A COMPOUND4args, as a server reads it.
use go_nfs_client.Prelude.{
  ℕ, ◌%◌, ◌^◌, ◌≡◌, List, [], ◌∷◌, ◌++◌, map, length, Option, some, All, arith,
}
use go_nfs_client.Xdr.Io.{Bytes, IoError}
use go_nfs_client.Xdr.Encoder.{each}
use go_nfs_client.Xdr.Decoder
use go_nfs_client.Xdr.Decoder.{Get, pure, times, ◌>>=◌}
use go_nfs_client.Xdr.Codec.{
  Codec, Codec-then, Codec-map, Codec-pure, Codec-decodes, reader, written,
}
use go_nfs_client.Xdr.RoundTrip.{uint32-Codec, string-Codec}
use go_nfs_client.Nfs4.Types.{U32, Small}
use go_nfs_client.Nfs4.Args.{Arg, encode_arg}
use go_nfs_client.Nfs4.Server.{read_arg, FitsArg}
use go_nfs_client.Nfs4.Server.RoundTrip.{sent, arg-Codec}
use go_nfs_client.Nfs4.Compound.{Compound, encode_compound}

-- The tag, the minor version and the argarray.
pub read_compound : Get (Bytes × ℕ × List (Option Arg))
read_compound = do
  tag ← Decoder.string
  minor ← Decoder.uint32
  n ← Decoder.uint32
  ops ← times n read_arg
  pure (tag, minor, ops)

args-Codec :
    (ops : List Arg)
    → All FitsArg ops
    → Codec (each encode_arg ops) (times (length ops) read_arg) (map (λ a. some (sent a)) ops)
unfolding each times
args-Codec [] h = Codec-pure []
args-Codec (a ∷ ops) h =
    Codec-then _ (arg-Codec a h.0) (Codec-map (λ xs. some (sent a) ∷ xs) (args-Codec ops h.1))

pub compound-Codec :
    (c : Compound)
    → Small c.tag
    → U32 c.minor_version
    → U32 (length c.ops)
    → All FitsArg c.ops
    → Codec
        (encode_compound c)
        read_compound
        (c.tag, c.minor_version, map (λ a. some (sent a)) c.ops)
unfolding encode_compound read_compound
compound-Codec c ht hm hn h =
    let e : length c.ops % 2 ^ 32 ≡ length c.ops = omega arith in
    rw e (
      Codec-then _ (string-Codec c.tag ht) (
        Codec-then _ (uint32-Codec c.minor_version hm) (
          Codec-then _ (uint32-Codec (length c.ops) hn)
            (Codec-map (λ xs. (c.tag, c.minor_version, xs)) (args-Codec c.ops h)))))

-- A server that follows RFC 7530 and RFC 8881 reads a request as its tag, its minor version and its
-- operations, each as far as it is sent, whatever follows, if all fields fit.
pub encode_compound-read_compound :
    (c : Compound) (ending : IoError) (rest : Bytes)
    → Small c.tag
    → U32 c.minor_version
    → U32 (length c.ops)
    → All FitsArg c.ops
    → read_compound (reader (written (encode_compound c) ++ rest) ending)
      ≡ ((c.tag, c.minor_version, map (λ a. some (sent a)) c.ops), reader rest ending)
encode_compound-read_compound c ending rest ht hm hn h =
    Codec-decodes _ _ _ (compound-Codec c ht hm hn h) ending rest
