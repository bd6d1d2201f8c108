-- ===== src/Nfs4/Attr/Bitmap.antt =====
-- nfs4/attr/bitmap.go.
pub mod Sets
use go_nfs_client.Prelude.{
  ℕ, zero, suc, ◌+◌, ◌*◌, ◌/◌, ◌%◌, ◌^◌, Bool, true, false, Option, some, none, List, [], ◌∷◌, ◌++◌,
  if◌then◌else◌, length, get_elem?, set, replicate, ltb, leb, ◌==◌,
}
use go_nfs_client.Prelude.Bits.{test_bit, set_bit}
use go_nfs_client.Xdr.Encoder
use go_nfs_client.Xdr.Encoder.{Put, each, ◌>>◌}
use go_nfs_client.Xdr.Decoder
use go_nfs_client.Xdr.Decoder.{Get, pure, times, get_err, ◌>>=◌}

abbrev pub attr_type : ℕ
attr_type = 1

abbrev pub attr_size : ℕ
attr_size = 4

abbrev pub attr_fsid : ℕ
attr_fsid = 8

abbrev pub attr_file_id : ℕ
attr_file_id = 20

abbrev pub attr_mode : ℕ
attr_mode = 33

abbrev pub attr_num_links : ℕ
attr_num_links = 35

abbrev pub attr_owner : ℕ
attr_owner = 36

abbrev pub attr_owner_group : ℕ
attr_owner_group = 37

abbrev pub attr_raw_dev : ℕ
attr_raw_dev = 41

abbrev pub attr_space_used : ℕ
attr_space_used = 45

abbrev pub attr_time_access : ℕ
attr_time_access = 47

abbrev pub attr_time_metadata : ℕ
attr_time_metadata = 52

abbrev pub attr_time_modify : ℕ
attr_time_modify = 53

abbrev pub Mask : Type 0
Mask = List ℕ

-- `if a > max { max = a }` over all attributes.
unfoldable pub max_of : ℕ → List ℕ → ℕ
max_of m [] = m
max_of m (a ∷ attrs) = max_of (if ltb m a then a else m) attrs

-- `bm[a/32] |= 1 << (a % 32)`. A word out of range panics in the program; the bitmap stays as it is
-- here.
unfoldable pub mark : Mask → ℕ → Mask
mark bm a = elim (get_elem? bm (a / 32)) [
  | none ↦ bm
  | some w ↦ set bm (a / 32) (set_bit (a % 32) w)
]

unfoldable pub mark_all : Mask → List ℕ → Mask
mark_all bm [] = bm
mark_all bm (a ∷ attrs) = mark_all (mark bm a) attrs

unfoldable pub bitmap_for : List ℕ → Mask
bitmap_for attrs = mark_all (replicate (max_of 0 attrs / 32 + 1) 0) attrs

unfoldable pub has : Mask → ℕ → Bool
has b a = elim (get_elem? b (a / 32)) [ none ↦ false | some w ↦ test_bit (a % 32) w ]

-- Bits `bit` to `bit + n - 1` of a word.
unfoldable pub word_attrs : ℕ → ℕ → ℕ → ℕ → List ℕ
word_attrs zero bit word w = []
word_attrs (suc n) bit word w =
    let rest = word_attrs n (bit + 1) word w in
    if test_bit bit w then (word * 32 + bit) ∷ rest else rest

-- The words from `word` on.
unfoldable pub set_attrs_from : ℕ → Mask → List ℕ
set_attrs_from word [] = []
set_attrs_from word (w ∷ b) = word_attrs 32 0 word w ++ set_attrs_from (word + 1) b

unfoldable pub set_attrs : Mask → List ℕ
set_attrs b = set_attrs_from 0 b

unfoldable pub encode_mask : Mask → Put
encode_mask b = do Encoder.uint32 (length b % 2 ^ 32); each Encoder.uint32 b

unfoldable pub decode_mask : Get Mask
decode_mask = do
  n ← Decoder.uint32
  e ← get_err
  elim e [ some x ↦ pure [] | none ↦ times n Decoder.uint32 ]

unfoldable pub standard_mask : Mask
standard_mask = bitmap_for (
    attr_type ∷ attr_size ∷ attr_fsid ∷ attr_file_id ∷ attr_mode ∷ attr_num_links ∷ attr_owner
    ∷ attr_owner_group ∷ attr_raw_dev ∷ attr_space_used ∷ attr_time_access ∷ attr_time_metadata
    ∷ attr_time_modify ∷ [])
