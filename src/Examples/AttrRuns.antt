-- ===== src/Examples/AttrRuns.antt =====
-- Bitmaps and attributes at concrete values.
use go_nfs_client.Prelude.{◌≡◌, refl, true, false, some, none, List, [], ◌∷◌, arith}
use go_nfs_client.Prelude.Int.{pos}
use go_nfs_client.Prelude.Bits.{test_bit, set_bit}
use go_nfs_client.Xdr.Io.{eof}
use go_nfs_client.Xdr.Encoder.{each}
use go_nfs_client.Xdr.Codec.{reader, written}
use go_nfs_client.Nfs4.Attr.Bitmap.{
  bitmap_for, has, set_attrs, set_attrs_from, word_attrs, max_of, mark_all, mark, standard_mask,
}
use go_nfs_client.Nfs4.Attr.Bitmap.Sets.{member, member-set_attrs}
use go_nfs_client.Nfs4.Attr.Attributes.{new_attributes, decode, ok}
use go_nfs_client.Nfs4.Attr.Attributes.RoundTrip.{
  Value, size, mode, time_modify, put_value, store_all, decode_lem,
}
use go_nfs_client.Nfs4.Attr.Settable.{SettableAttrs, encode_fattr}
use go_nfs_client.Nfs4.Attr.Settable.Layout.{
  read_fattr, read_values, asked, invalid, encode_fattr_times, encode_fattr-read_fattr,
}

standard_mask_words : standard_mask ≡ 1048850 ∷ 3187258 ∷ []
unfolding standard_mask bitmap_for max_of mark_all mark set_bit
standard_mask_words = refl

member-set_attrs_example : member 33 (set_attrs (16 ∷ 2 ∷ [])) ≡ has (16 ∷ 2 ∷ []) 33
member-set_attrs_example = member-set_attrs (16 ∷ 2 ∷ []) 33

abbrev values : List Value
values = size 7 ∷ mode 420 ∷ time_modify (pos 9) 5 ∷ []

decode_lem_example :
    decode (16 ∷ 2097154 ∷ []) (written (each put_value values))
    ≡ ok (store_all values (new_attributes (16 ∷ 2097154 ∷ [])))
unfolding set_attrs set_attrs_from word_attrs test_bit
decode_lem_example =
    decode_lem (16 ∷ 2097154 ∷ []) values refl
      (omega arith, (omega arith, ((omega arith, omega arith), tt)))

abbrev settable : SettableAttrs
settable = record {
  mode = some 420;
  size = none;
  time_access = none;
  time_modify = some (record { secs = pos 9; nsecs = 5 });
}

encode_fattr_times_example :
    (has (encode_fattr settable).0 48 ≡ false)
    × (has (encode_fattr settable).0 54 ≡ false)
    × (has (encode_fattr settable).0 47 ≡ false)
    × (has (encode_fattr settable).0 53 ≡ true)
encode_fattr_times_example = encode_fattr_times settable

encode_fattr-read_fattr_example :
    (has (encode_fattr settable).0 33 ≡ true)
    × (read_values
          (has (encode_fattr settable).0 4)
          (has (encode_fattr settable).0 33)
          (has (encode_fattr settable).0 47)
          (has (encode_fattr settable).0 53)
          (reader (encode_fattr settable).1 eof)
        ≡ (asked settable, reader [] eof))
    × (read_fattr (encode_fattr settable).0 (reader (encode_fattr settable).1 eof)
        ≡ (invalid, reader (encode_fattr settable).1 eof))
encode_fattr-read_fattr_example =
    encode_fattr-read_fattr settable 33 eof tt (omega arith) tt
      (record { secs_fit = omega arith; nsecs_fit = omega arith })
