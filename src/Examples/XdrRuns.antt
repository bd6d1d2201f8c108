-- ===== src/Examples/XdrRuns.antt =====
-- xdr/encoder.go and xdr/decoder.go on concrete inputs.
use go_nfs_client.Prelude.{◌≡◌, refl, some, true, List, [], ◌∷◌, ◌++◌, arith, length}
use go_nfs_client.Prelude.Int.{pos, negsuc}
use go_nfs_client.Xdr.Io.{Bytes, eof, unexpected_eof, put_uint32}
use go_nfs_client.Xdr.Encoder
use go_nfs_client.Xdr.Encoder.{Encoder}
use go_nfs_client.Xdr.Decoder
use go_nfs_client.Xdr.Decoder.{io, limit_exceeded, default_max_len}
use go_nfs_client.Xdr.Codec.{reader, written}
use go_nfs_client.Xdr.RoundTrip.{opaque_roundtrip}
use go_nfs_client.Xdr.Parser.{HasFailed}
use go_nfs_client.Xdr.Fields.{
  Field, word, flag, opaque, put_field, put_fields, get_fields, fields_truncated,
}

-- "hello": its length, its bytes, three bytes of padding.
hello : Bytes
hello = 104 ∷ 101 ∷ 108 ∷ 108 ∷ 111 ∷ []

opaque_runs :
    written (Encoder.opaque hello) ≡ 0 ∷ 0 ∷ 0 ∷ 5 ∷ 104 ∷ 101 ∷ 108 ∷ 108 ∷ 111 ∷ 0 ∷ 0 ∷ 0 ∷ []
unfolding Encoder.opaque Encoder.uint32 Encoder.write Encoder.pad put_uint32 hello
opaque_runs = refl

int32_runs : written (Encoder.int32 (negsuc 1)) ≡ 255 ∷ 255 ∷ 255 ∷ 254 ∷ []
unfolding Encoder.int32 Encoder.uint32 Encoder.write put_uint32
int32_runs = refl

short_word : Decoder.uint32 (reader (0 ∷ 0 ∷ 1 ∷ []) eof) ≡ (
  0,
  record { r = record { input = []; ending = eof }; max_len = 0; err = some (io unexpected_eof) },
)
unfolding Decoder.uint32 Decoder.read Decoder.◌>>=◌ Decoder.pure
short_word = refl

opaque_roundtrip_example :
    (Decoder.opaque (reader (written (Encoder.opaque hello) ++ 7 ∷ []) eof)
      ≡ (hello, reader (7 ∷ []) eof))
    × (Decoder.string (reader (written (Encoder.string hello) ++ 7 ∷ []) eof)
        ≡ (hello, reader (7 ∷ []) eof))
    × (Decoder.fixed_opaque
          (pos (length hello))
          (reader (written (Encoder.fixed_opaque hello) ++ 7 ∷ []) eof)
        ≡ (hello, reader (7 ∷ []) eof))
unfolding hello
opaque_roundtrip_example = opaque_roundtrip hello (7 ∷ []) eof (omega arith)

opaque_decoded :
    Decoder.opaque (reader (0 ∷ 0 ∷ 0 ∷ 2 ∷ 8 ∷ 9 ∷ 0 ∷ 0 ∷ 5 ∷ []) eof)
    ≡ (8 ∷ 9 ∷ [], reader (5 ∷ []) eof)
unfolding Decoder.opaque Decoder.padded Decoder.discard Decoder.uint32 Decoder.read Decoder.◌>>=◌
    Decoder.pure
opaque_decoded = refl

-- A word, a flag and an opaque, cut off inside the flag.
abbrev fields : List Field
fields = word 300 ∷ flag true ∷ opaque (7 ∷ []) ∷ []

fields_truncated_example :
    HasFailed (get_fields fields (reader (0 ∷ 0 ∷ 1 ∷ 44 ∷ 0 ∷ 0 ∷ []) eof)).1
unfolding put_fields put_field Encoder.uint32 Encoder.bool Encoder.opaque Encoder.fixed_opaque
    Encoder.pad Encoder.write put_uint32
fields_truncated_example =
    fields_truncated fields (0 ∷ 0 ∷ 1 ∷ 44 ∷ 0 ∷ 0 ∷ []) (1 ∷ 0 ∷ 0 ∷ 0 ∷ 1 ∷ 7 ∷ 0 ∷ 0 ∷ 0 ∷ []) 0
      eof (omega arith, (tt, (omega arith, tt))) refl
