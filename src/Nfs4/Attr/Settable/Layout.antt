-- ===== src/Nfs4/Attr/Settable/Layout.antt =====
-- How a server reads the attributes that are to be set, after RFC 7530.
use go_nfs_client.Prelude.{
  ℕ, ◌^◌, ◌≡◌, refl, ◌∙◌, Bool, true, false, Option, some, none, List, [], ◌++◌, ◌==◌, arith, ◌||◌,
  ◌&&◌, if◌then◌else◌, Bool-cases, inl, inr,
}
use go_nfs_client.Prelude.Int.{Fits}
use go_nfs_client.Xdr.Io.{IoError}
use go_nfs_client.Xdr.Encoder
use go_nfs_client.Xdr.Encoder.{Put, skip, ◌>>◌}
use go_nfs_client.Xdr.Decoder
use go_nfs_client.Xdr.Decoder.{Decoder, Get, pure, ◌>>=◌}
use go_nfs_client.Xdr.Codec.{Codec, Codec-then, Codec-map, Codec-pure, Codec-whole, reader, written}
use go_nfs_client.Xdr.RoundTrip.{uint32-Codec, uint64-Codec, int64-Codec}
use go_nfs_client.Nfs4.Types.{U32, U64}
use go_nfs_client.Nfs4.Attr.Bitmap.{Mask, bitmap_for, has}
use go_nfs_client.Nfs4.Attr.Bitmap.Sets.{member, has-bitmap_for}
use go_nfs_client.Nfs4.Attr.Settable.{
  Timestamp, SettableAttrs, if_set, listed, set_nums, encode_settime, put_settable, encode_fattr,
}

-- settime4, a union: SET_TO_CLIENT_TIME4 (1) with a time, SET_TO_SERVER_TIME4 (0) without one, and no
-- other arm.
pub data SetTime : Type 0 where
  client_time : Timestamp → SetTime
  server_time bad_arm : SetTime

pub read_settime : Get SetTime
read_settime = do
  how ← Decoder.uint32
  if how == 1
      then (do
        secs ← Decoder.int64
        nsecs ← Decoder.uint32
        pure (client_time (record { secs = secs; nsecs = nsecs })))
      else pure (if how == 0 then server_time else bad_arm)

-- What a server is asked to set.
pub record Request : Type 0 where
  pub mode : Option ℕ
  pub size : Option ℕ
  pub time_access : Option SetTime
  pub time_modify : Option SetTime

-- One attribute, which is there if the mask has it.
abbrev pub if_there : {A : Type 0} → Bool → Get A → Get (Option A)
if_there true get = get >>= λ a. pure (some a)
if_there false get = pure none

-- The values of those attributes that are there: size, mode, and a settime4 each for the access and the
-- modification time, in this order.
pub read_values : Bool → Bool → Bool → Bool → Get Request
read_values has_size has_mode has_access has_modify = do
  size ← if_there has_size Decoder.uint64
  mode ← if_there has_mode Decoder.uint32
  access ← if_there has_access read_settime
  modify ← if_there has_modify read_settime
  pure (record { mode = mode; size = size; time_access = access; time_modify = modify })

-- NFS4ERR_INVAL, or what is set.
pub data Reply : Type 0 where
  invalid : Reply
  setting : Request → Reply

-- A server that follows RFC 7530. It takes times under time_access_set (48) and time_modify_set (54),
-- and refuses to set time_access (47) and time_modify (53), which can only be read.
pub read_fattr : Mask → Get Reply
read_fattr mask =
    if has mask 47 || has mask 53
    then pure invalid
    else read_values (has mask 4) (has mask 33) (has mask 48) (has mask 54) >>= λ r.
        pure (setting r)

-- `client_time` under an option.
abbrev pub client_option : Option Timestamp → Option SetTime
client_option none = none
client_option (some t) = some (client_time t)

abbrev pub asked : SettableAttrs → Request
asked s = record {
  mode = s.mode;
  size = s.size;
  time_access = client_option s.time_access;
  time_modify = client_option s.time_modify;
}

pub record FitsTimestamp (t : Timestamp) : Type 0 where
  pub secs_fit : Fits (2 ^ 63) t.secs
  pub nsecs_fit : U32 t.nsecs

abbrev pub FitsOption : {A : Type 0} → (A → Type 0) → Option A → Type 0
FitsOption P none = Unit
FitsOption P (some a) = P a

abbrev pub is_set : {A : Type 0} → Option A → Bool
is_set none = false
is_set (some a) = true

settime-Codec :
    (t : Timestamp) → FitsTimestamp t → Codec (encode_settime t) read_settime (client_time t)
unfolding encode_settime read_settime
settime-Codec t h = Codec-then _ (uint32-Codec 1 (omega arith)) (
    Codec-then _ (int64-Codec t.secs h.secs_fit) (
      Codec-map {B = SetTime} (λ n. client_time (record { secs = t.secs; nsecs = n }))
        (uint32-Codec t.nsecs h.nsecs_fit)))

settime_option-Codec :
    (o : Option Timestamp)
    → FitsOption FitsTimestamp o
    → Codec (if_set o encode_settime) (if_there (is_set o) read_settime) (client_option o)
settime_option-Codec none h = Codec-pure none
settime_option-Codec (some t) h = Codec-map (λ x. some x) (settime-Codec t h)

option-Codec :
    {A : Type 0} (P : A → Type 0) (put : A → Put) (get : Get A) (o : Option A)
    → ((a : A) → P a → Codec (put a) get a)
    → FitsOption P o
    → Codec (if_set o put) (if_there (is_set o) get) o
option-Codec P put get none c h = Codec-pure none
option-Codec P put get (some a) c h = Codec-map (λ x. some x) (c a h)

member-listed :
    {A : Type 0} (n m : ℕ) (o : Option A) (xs : List ℕ)
    → member n (listed o m ++ xs) ≡ (((n == m) && is_set o) || member n xs)
unfolding member
member-listed n m none xs = ground arith
member-listed n m (some a) xs = ground arith

member_last : {A : Type 0} (n m : ℕ) (o : Option A) → member n (listed o m) ≡ ((n == m) && is_set o)
unfolding member
member_last n m none = ground arith
member_last n m (some a) = ground arith

module _ (s : SettableAttrs) where
  has-listed :
      (n : ℕ)
      → has (bitmap_for (set_nums s)) n ≡ (
          ((n == 4) && is_set s.size)
          || (((n == 33) && is_set s.mode)
              || (((n == 47) && is_set s.time_access) || ((n == 53) && is_set s.time_modify))))
  unfolding set_nums
  has-listed n =
      has-bitmap_for (set_nums s) n
      ∙ rw
          (
            member-listed n 4 s.size
                (listed s.mode 33 ++ (listed s.time_access 47 ++ listed s.time_modify 53)),
            member-listed n 33 s.mode (listed s.time_access 47 ++ listed s.time_modify 53),
            member-listed n 47 s.time_access (listed s.time_modify 53),
            member_last n 53 s.time_modify,
          )
          refl

  has-size : has (bitmap_for (set_nums s)) 4 ≡ is_set s.size
  has-size = has-listed 4 ∙ ground arith

  has-mode : has (bitmap_for (set_nums s)) 33 ≡ is_set s.mode
  has-mode = has-listed 33 ∙ ground arith

  has-time_access : has (bitmap_for (set_nums s)) 47 ≡ is_set s.time_access
  has-time_access = has-listed 47 ∙ ground arith

  has-time_modify : has (bitmap_for (set_nums s)) 53 ≡ is_set s.time_modify
  has-time_modify = has-listed 53

  -- The mask never asks to set time_access_set (48) or time_modify_set (54), which are the attributes
  -- that RFC 7530 has for setting times; a time is listed under time_access (47) or time_modify (53),
  -- which a client can only read.
  pub encode_fattr_times :
      (has (encode_fattr s).0 48 ≡ false)
      × (has (encode_fattr s).0 54 ≡ false)
      × (has (encode_fattr s).0 47 ≡ is_set s.time_access)
      × (has (encode_fattr s).0 53 ≡ is_set s.time_modify)
  unfolding encode_fattr
  encode_fattr_times =
      (has-listed 48 ∙ ground arith, has-listed 54 ∙ ground arith, has-time_access, has-time_modify)

  values-Codec :
      FitsOption U64 s.size
      → FitsOption U32 s.mode
      → FitsOption FitsTimestamp s.time_access
      → FitsOption FitsTimestamp s.time_modify
      → Codec
          (put_settable s)
          (read_values
            (is_set s.size)
            (is_set s.mode)
            (is_set s.time_access)
            (is_set s.time_modify))
          (asked s)
  unfolding read_values put_settable
  values-Codec hs hm ha hd =
      Codec-then _ (option-Codec U64 Encoder.uint64 Decoder.uint64 s.size uint64-Codec hs) (
        Codec-then _ (option-Codec U32 Encoder.uint32 Decoder.uint32 s.mode uint32-Codec hm) (
          Codec-then _ (settime_option-Codec s.time_access ha) (
            Codec-map {B = Request} (λ t. record (asked s) { time_modify = t })
              (settime_option-Codec s.time_modify hd))))

  untimed-Codec :
      FitsOption U64 s.size
      → FitsOption U32 s.mode
      → FitsOption FitsTimestamp s.time_access
      → FitsOption FitsTimestamp s.time_modify
      → is_set s.time_access ≡ false
      → is_set s.time_modify ≡ false
      → Codec (put_settable s) (read_fattr (bitmap_for (set_nums s))) (setting (asked s))
  unfolding read_fattr
  untimed-Codec hs hm ha hd na nm =
      let no_access = has-listed 48 in
      let no_modify = has-listed 54 in
      let values = rw (na, nm) at (values-Codec hs hm ha hd) in
      rw (has-size, has-mode, has-time_access, has-time_modify, no_access, no_modify, na, nm)
        (Codec-map setting values)

  timed-read_fattr :
      (is_set s.time_access || is_set s.time_modify) ≡ true
      → (d : Decoder) → read_fattr (bitmap_for (set_nums s)) d ≡ (invalid, d)
  unfolding read_fattr pure
  timed-read_fattr h d = rw (has-time_access, has-time_modify, h) refl

  -- The mask has the attributes that are set and no other. A reader that takes the values as the mask
  -- lists them, times under time_access (47) and time_modify (53) included, finds each attribute with its
  -- value, a time as one that the client sets, and nothing behind them. A server that follows RFC 7530
  -- does so where no time is set; where one is, it refuses the request as invalid, since it does not
  -- set times under these numbers. Here the values fit their widths.
  pub encode_fattr-read_fattr :
      (n : ℕ) (ending : IoError)
      → FitsOption U64 s.size
      → FitsOption U32 s.mode
      → FitsOption FitsTimestamp s.time_access
      → FitsOption FitsTimestamp s.time_modify
      → let (mask, vals) = encode_fattr s in
        (has mask n ≡ (
          ((n == 4) && is_set s.size)
          || (((n == 33) && is_set s.mode)
              || (((n == 47) && is_set s.time_access) || ((n == 53) && is_set s.time_modify)))))
        × (read_values (has mask 4) (has mask 33) (has mask 47) (has mask 53) (reader vals ending)
            ≡ (asked s, reader [] ending))
        × (read_fattr mask (reader vals ending) ≡ (
            if is_set s.time_access || is_set s.time_modify
            then (invalid, reader vals ending)
            else (setting (asked s), reader [] ending)))
  unfolding encode_fattr
  encode_fattr-read_fattr n ending hs hm ha hd =
      let whole = Codec-whole _ _ _ ending (values-Codec hs hm ha hd) in
      (has-listed n, rw (has-size, has-mode, has-time_access, has-time_modify) whole, third)
    where
      Third : Bool → Bool → Type 0
      Third a m =
          read_fattr (bitmap_for (set_nums s)) (reader (written (put_settable s)) ending) ≡ (
            if a || m
            then (invalid, reader (written (put_settable s)) ending)
            else (setting (asked s), reader [] ending))

      third : Third (is_set s.time_access) (is_set s.time_modify)
      third = elim (Bool-cases (is_set s.time_access)) [
        | inl e ↦ rw e (timed-read_fattr (rw e refl) _)
        | inr e ↦ elim (Bool-cases (is_set s.time_modify)) [
          | inl e' ↦ rw (e, e') (timed-read_fattr (rw (e, e') refl) _)
          | inr e' ↦ rw (e, e') (Codec-whole _ _ _ ending (untimed-Codec hs hm ha hd e e'))
        ]
      ]
