-- ===== src/Xdr/Fields.antt =====
-- Sequences of fields, as the encoder's methods write them and the decoder's methods read them.
use go_nfs_client.Prelude.{ℕ, ◌^◌, ◌≤◌, ◌<◌, ◌≡◌, Bool, List, [], ◌∷◌, ◌++◌, length}
use go_nfs_client.Prelude.Int.{pos}
use go_nfs_client.Xdr.Io.{Bytes, IoError}
use go_nfs_client.Xdr.Encoder
use go_nfs_client.Xdr.Encoder.{Put, skip, ◌>>◌}
use go_nfs_client.Xdr.Decoder
use go_nfs_client.Xdr.Decoder.{Get, pure, ◌>>=◌, default_max_len}
use go_nfs_client.Xdr.Codec.{Codec, Codec-then, Codec-map, Codec-pure, reader, written}
use go_nfs_client.Xdr.RoundTrip.{
  uint32-Codec, uint64-Codec, bool-Codec, opaque-Codec, string-Codec, fixed_opaque-Codec,
}
use go_nfs_client.Xdr.Parser.{
  HasFailed, IsParser, pure-IsParser, >>=-IsParser, uint32-IsParser, uint64-IsParser,
  opaque-IsParser, string-IsParser, fixed_opaque-IsParser, Codec-truncated,
}

-- A field with its value.
pub data Field : Type 0 where
  word : ℕ → Field
  long : ℕ → Field
  flag : Bool → Field
  opaque string fixed : Bytes → Field

abbrev pub FitsField : Field → Type 0
FitsField (word n) = n < 2 ^ 32
FitsField (long n) = n < 2 ^ 64
FitsField (flag b) = Unit {0}
FitsField (opaque p) = length p ≤ default_max_len
FitsField (string p) = length p ≤ default_max_len
FitsField (fixed p) = Unit {0}

abbrev pub FitFields : List Field → Type 0
FitFields [] = Unit {0}
FitFields (f ∷ fields) = FitsField f × FitFields fields

unfoldable pub put_field : Field → Put
put_field (word n) = Encoder.uint32 n
put_field (long n) = Encoder.uint64 n
put_field (flag b) = Encoder.bool b
put_field (opaque p) = Encoder.opaque p
put_field (string p) = Encoder.string p
put_field (fixed p) = Encoder.fixed_opaque p

-- The method that reads a field of this kind; a fixed-length opaque has the length that is expected.
pub get_field : Field → Get Field
get_field (word n) = do v ← Decoder.uint32; pure (word v)
get_field (long n) = do v ← Decoder.uint64; pure (long v)
get_field (flag b) = do v ← Decoder.bool; pure (flag v)
get_field (opaque p) = do v ← Decoder.opaque; pure (opaque v)
get_field (string p) = do v ← Decoder.string; pure (string v)
get_field (fixed p) = do v ← Decoder.fixed_opaque (pos (length p)); pure (fixed v)

unfoldable pub put_fields : List Field → Put
put_fields [] = skip
put_fields (f ∷ fields) = put_field f >> put_fields fields

pub get_fields : List Field → Get (List Field)
get_fields [] = pure []
get_fields (f ∷ fields) = do v ← get_field f; vs ← get_fields fields; pure (v ∷ vs)

field-Codec : (f : Field) → FitsField f → Codec (put_field f) (get_field f) f
unfolding put_field get_field
field-Codec (word n) h = Codec-map word (uint32-Codec n h)
field-Codec (long n) h = Codec-map long (uint64-Codec n h)
field-Codec (flag b) h = Codec-map flag (bool-Codec b)
field-Codec (opaque p) h = Codec-map opaque (opaque-Codec p h)
field-Codec (string p) h = Codec-map string (string-Codec p h)
field-Codec (fixed p) h = Codec-map fixed (fixed_opaque-Codec p)

fields-Codec :
    (fields : List Field) → FitFields fields → Codec (put_fields fields) (get_fields fields) fields
unfolding put_fields get_fields
fields-Codec [] h = Codec-pure []
fields-Codec (f ∷ fields) (h, hs) =
    Codec-then _ (field-Codec f h) (Codec-map (λ vs. f ∷ vs) (fields-Codec fields hs))

map-IsParser :
    {A B : Type 0} (k : A → B) (get : Get A) → IsParser get → IsParser (get >>= λ a. pure (k a))
map-IsParser k get h = >>=-IsParser get _ h λ a. pure-IsParser (k a)

bool-IsParser : IsParser Decoder.bool
unfolding Decoder.bool
bool-IsParser = map-IsParser _ Decoder.uint32 uint32-IsParser

field-IsParser : (f : Field) → IsParser (get_field f)
unfolding get_field
field-IsParser (word n) = map-IsParser word _ uint32-IsParser
field-IsParser (long n) = map-IsParser long _ uint64-IsParser
field-IsParser (flag b) = map-IsParser flag _ bool-IsParser
field-IsParser (opaque p) = map-IsParser opaque _ opaque-IsParser
field-IsParser (string p) = map-IsParser string _ string-IsParser
field-IsParser (fixed p) = map-IsParser fixed _ (fixed_opaque-IsParser (length p))

fields-IsParser : (fields : List Field) → IsParser (get_fields fields)
unfolding get_fields
fields-IsParser [] = pure-IsParser []
fields-IsParser (f ∷ fields) =
    >>=-IsParser (get_field f) _ (field-IsParser f)
      λ v. map-IsParser (λ vs. v ∷ vs) (get_fields fields) (fields-IsParser fields)

-- Any sequence of fields that the encoder's methods write, cut off anywhere before its end and read by
-- the decoder's methods for these fields in the same order, leaves the decoder with an error, whatever
-- ends the stream: an error in one field is still there after all that follow. The integers keep to their
-- width, and an opaque and a string to the limit of 64 MiB.
pub fields_truncated :
    (fields : List Field) (front back : Bytes) (x : ℕ) (ending : IoError)
    → FitFields fields
    → written (put_fields fields) ≡ front ++ x ∷ back
    → HasFailed (get_fields fields (reader front ending)).1
fields_truncated fields front back x ending h e =
    Codec-truncated (put_fields fields) (get_fields fields) fields (fields-Codec fields h)
      (fields-IsParser fields) front back x ending e
