-- ===== src/Nfs4/Attr/Settable.antt =====
-- nfs4/attr/encode.go: the attributes that SETATTR, OPEN and CREATE set.
pub mod Layout
use go_nfs_client.Prelude.{ℕ, Option, some, none, List, [], ◌∷◌, ◌++◌}
use go_nfs_client.Prelude.Int.{ℤ}
use go_nfs_client.Xdr.Io.{Bytes}
use go_nfs_client.Xdr.Encoder
use go_nfs_client.Xdr.Encoder.{Put, skip, ◌>>◌}
use go_nfs_client.Xdr.Codec.{written}
use go_nfs_client.Nfs4.Attr.Bitmap.{
  Mask, bitmap_for, attr_size, attr_mode, attr_time_access, attr_time_modify,
}

abbrev pub set_to_client_time4 : ℕ
set_to_client_time4 = 1

-- A time.Time by its Unix() and its Nanosecond().
pub record Timestamp : Type 0 where
  pub secs : ℤ
  pub nsecs : ℕ

-- A nil pointer is none.
pub record SettableAttrs : Type 0 where
  pub mode : Option ℕ
  pub size : Option ℕ
  pub time_access : Option Timestamp
  pub time_modify : Option Timestamp

-- `if p != nil { nums = append(nums, num) }`
abbrev pub listed {ℓ} : {A : Type ℓ} → Option A → ℕ → List ℕ
listed none num = []
listed (some a) num = num ∷ []

-- `if p != nil { put(*p) }`
abbrev pub if_set {ℓ} : {A : Type ℓ} → Option A → (A → Put) → Put
if_set none put = skip
if_set (some a) put = put a

unfoldable pub set_nums : SettableAttrs → List ℕ
set_nums s =
    listed s.size attr_size
    ++ (listed s.mode attr_mode
        ++ (listed s.time_access attr_time_access ++ listed s.time_modify attr_time_modify))

unfoldable pub encode_settime : Timestamp → Put
encode_settime t = do
  Encoder.uint32 set_to_client_time4
  Encoder.int64 t.secs
  Encoder.uint32 t.nsecs

unfoldable pub put_settable : SettableAttrs → Put
put_settable s = do
  if_set s.size Encoder.uint64
  if_set s.mode Encoder.uint32
  if_set s.time_access encode_settime
  if_set s.time_modify encode_settime

unfoldable pub encode_fattr : SettableAttrs → Mask × Bytes
encode_fattr s = (bitmap_for (set_nums s), written (put_settable s))
