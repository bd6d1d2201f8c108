-- ===== src/Xdr/Io.antt =====
-- Bytes, and what package xdr uses of Go's io and encoding/binary: the errors of a stream,
-- big-endian words, and io.ReadFull.
use go_nfs_client.Prelude.{
  ℕ, ◌+◌, ◌*◌, ◌/◌, ◌%◌, ◌^◌, ◌<◌, ◌≡◌, List, [], ◌∷◌, ◌++◌, Option, none, some, arith, split_at,
  length, split_at-append, split_at-length, Option-cases, ◌⊎◌, inl, inr, refl,
}

abbrev pub Bytes : Type 0
Bytes = List ℕ

-- `other n` is an error of the connection below, by a number.
pub data IoError : Type 0 where
  eof unexpected_eof : IoError
  other : ℕ → IoError

-- binary.BigEndian.PutUint32 and PutUint64.
unfoldable pub put_uint32 : ℕ → Bytes
put_uint32 v = (v / 2 ^ 24 % 256) ∷ (v / 2 ^ 16 % 256) ∷ (v / 2 ^ 8 % 256) ∷ (v % 256) ∷ []

unfoldable pub put_uint64 : ℕ → Bytes
unfolding put_uint32
put_uint64 v =
    (v / 2 ^ 56 % 256) ∷ (v / 2 ^ 48 % 256) ∷ (v / 2 ^ 40 % 256) ∷ (v / 2 ^ 32 % 256) ∷ put_uint32 v

-- binary.BigEndian.Uint32 and Uint64, on a buffer that is long enough.
unfoldable pub big_endian : ℕ → Bytes → ℕ
big_endian acc [] = acc
big_endian acc (b ∷ bs) = big_endian (acc * 256 + b) bs

pub big_endian-put_uint32 : (v : ℕ) → v < 2 ^ 32 → big_endian 0 (put_uint32 v) ≡ v
unfolding put_uint32 big_endian
big_endian-put_uint32 v h = omega arith

pub big_endian-put_uint64 : (v : ℕ) → v < 2 ^ 64 → big_endian 0 (put_uint64 v) ≡ v
unfolding put_uint64 big_endian
big_endian-put_uint64 v h = omega arith

-- A stream: the bytes that are still to come, and how it ends after them.
pub record Stream : Type 0 where
  pub input : Bytes
  pub ending : IoError

-- What io.ReadFull answers when the stream ends after `got` bytes, too early.
abbrev pub short_error : Bytes → IoError → IoError
short_error [] e = e
short_error (b ∷ bs) eof = unexpected_eof
short_error (b ∷ bs) unexpected_eof = unexpected_eof
short_error (b ∷ bs) (other n) = other n

-- io.ReadFull into a buffer of `n` bytes.
pub data ReadFull : Type 0 where
  full : Bytes → Stream → ReadFull
  short : IoError → Stream → ReadFull

unfoldable pub read_full : ℕ → Stream → ReadFull
read_full n s = elim (split_at n s.input) [
  | some (p, rest) ↦ full p (record s { input = rest })
  | none ↦ short (short_error s.input s.ending) (record s { input = [] })
]

-- A stream that begins with a big-endian word.
pub read_full-put_uint32 :
    (v : ℕ) (rest : Bytes) (ending : IoError)
    → read_full 4 (record { input = put_uint32 v ++ rest; ending = ending })
      ≡ full (put_uint32 v) (record { input = rest; ending = ending })
unfolding read_full put_uint32
read_full-put_uint32 v rest ending = refl

pub read_full-append :
    (p rest : Bytes) (ending : IoError)
    → read_full (length p) (record { input = p ++ rest; ending = ending })
      ≡ full p (record { input = rest; ending = ending })
unfolding read_full
read_full-append p rest ending = ground (arith, split_at-append p rest)

-- A read is full where the stream holds enough, and takes exactly so much.
pub read_full-cases :
    (n : ℕ) (r : Stream)
    → ((e : IoError) × (r' : Stream) × (read_full n r ≡ short e r'))
      ⊎ ((p : Bytes) × (r' : Stream) × (read_full n r ≡ full p r')
          × (length p ≡ n)
          × (length r.input ≡ n + length r'.input))
unfolding read_full
read_full-cases n r = elim (Option-cases (split_at n r.input)) [
  | inl e ↦ inl (short_error r.input r.ending, record r { input = [] }, rw (e, read_full))
  | inr ((p, rest), e) ↦
      let (a, b) = split_at-length n r.input p rest e in
      inr (p, record r { input = rest }, rw (e, read_full), a, b)
]

-- An io.Writer: `sent` is all that was handed to it so far, and `fails sent p` is the error that its
-- next Write answers to `p`, if any.
pub record Writer : Type 0 where
  pub sent : Bytes
  pub fails : Bytes → Bytes → Option IoError

abbrev pub write_to : Bytes → Writer → Option IoError × Writer
write_to p w = (w.fails w.sent p, record w { sent = w.sent ++ p })
