-- ===== src/Xdr/Codec.antt =====
-- What an encoder appends to a bytes.Buffer, what a decoder reads off a bytes.Reader, and how the
-- two fit together over a sequence of calls.
use go_nfs_client.Prelude.{
  ◌≡◌, refl, ap, ◌∙◌, sym, Option, none, List, [], ◌∷◌, ◌++◌, append_assoc, append-nil, All, length,
}
use go_nfs_client.Xdr.Io.{Bytes, IoError}
use go_nfs_client.Xdr.Encoder.{Encoder, Put, skip, each, ◌>>◌}
use go_nfs_client.Xdr.Decoder.{Decoder, Error, get_err, Get, pure, times, new_decoder, ◌>>=◌}

-- xdr.NewEncoder(&buf), after `out` was written. Writes to a bytes.Buffer never fail.
abbrev pub buffer : Bytes → Encoder
buffer out = record { sent = out; writer = λ _ _. none; err = none }

-- buf.Bytes(), after `put`.
abbrev pub written : Put → Bytes
written put = (put (buffer [])).sent

-- A decoder as xdr.NewDecoder makes it, over a stream of `input`.
abbrev pub reader : Bytes → IoError → Decoder
reader input ending = new_decoder (record { input = input; ending = ending })

-- `put` appends exactly `bs`.
abbrev pub Emits : Put → Bytes → Type 0
Emits put bs = (out : Bytes) → put (buffer out) ≡ buffer (out ++ bs)

-- `get` reads exactly `bs` off the front of any input, and answers `a`.
abbrev pub Reads : {A : Type 0} → Get A → Bytes → A → Type 0
Reads get bs a =
    (ending : IoError) (rest : Bytes) → get (reader (bs ++ rest) ending) ≡ (a, reader rest ending)

-- What `put` appends, `get` reads back as `a`.
pub record Codec {A : Type 0} (put : Put) (get : Get A) (a : A) : Type 0 where
  pub bytes : Bytes
  pub emits : Emits put bytes
  pub reads : Reads get bytes a

pub Emits-skip : Emits skip []
unfolding skip
Emits-skip out = ap buffer (sym (append-nil out))

pub Emits-then : (f g : Put) (a b : Bytes) → Emits f a → Emits g b → Emits (f >> g) (a ++ b)
unfolding ◌>>◌
Emits-then f g a b hf hg out = ap g (hf out) ∙ hg (out ++ a) ∙ ap buffer (append_assoc out a b)

pub Emits-written : (put : Put) (bs : Bytes) → Emits put bs → written put ≡ bs
Emits-written put bs h = ap (λ (e : Encoder). e.sent) (h [])

module _ {A B : Type 0} where
  pub Reads-bind :
      (m : Get A) (f : A → Get B) (a b : Bytes) (x : A) (y : B)
      → Reads m a x
      → Reads (f x) b y
      → Reads (m >>= f) (a ++ b) y
  unfolding ◌>>=◌
  Reads-bind m f a b x y hm hf ending rest =
      rw (append_assoc a b rest, hm ending (b ++ rest)) (hf ending rest)

  pub Codec-then :
      {p q : Put} {m : Get A} {x : A} {y : B} (f : A → Get B)
      → Codec p m x
      → Codec q (f x) y
      → Codec (p >> q) (m >>= f) y
  Codec-then {p} {q} {m} {x} {y} f c d = record {
    bytes = c.bytes ++ d.bytes;
    emits = Emits-then p q c.bytes d.bytes c.emits d.emits;
    reads = Reads-bind m f c.bytes d.bytes x y c.reads d.reads;
  }

  pub Codec-map :
      {p : Put} {m : Get A} {x : A} (k : A → B)
      → Codec p m x
      → Codec p (m >>= λ a. pure (k a)) (k x)
  unfolding ◌>>=◌ pure
  Codec-map k c = record {
    bytes = c.bytes;
    emits = c.emits;
    reads = λ ending rest. rw (c.reads ending rest);
  }

pub Codec-assoc :
    {A : Type 0} (p q r : Put) {m : Get A} {x : A}
    → Codec (p >> (q >> r)) m x
    → Codec ((p >> q) >> r) m x
unfolding ◌>>◌
Codec-assoc p q r c = record { bytes = c.bytes; emits = c.emits; reads = c.reads }

-- A check of `d.Err()` between two fields passes.
pub Codec-get_err :
    {A : Type 0} {p : Put} {y : A} (k : Option Error → Get A)
    → Codec p (k none) y
    → Codec p (get_err >>= k) y
unfolding get_err ◌>>=◌
Codec-get_err k c = record { bytes = c.bytes; emits = c.emits; reads = c.reads }

-- A last step that reads nothing.
pub Codec-end :
    {A B : Type 0} {p : Put} {m : Get A} {x : A} {y : B} (f : A → Get B)
    → Codec p m x
    → Reads (f x) [] y
    → Codec p (m >>= f) y
unfolding ◌>>=◌
Codec-end f c h = record {
  bytes = c.bytes;
  emits = c.emits;
  reads = λ ending rest. rw (c.reads ending rest) (h ending rest);
}

pub Codec-pure : {A : Type 0} (a : A) → Codec skip (pure a) a
unfolding pure
Codec-pure a = record { bytes = []; emits = Emits-skip; reads = λ ending rest. refl }

pub Codec-each :
    {A : Type 0} (put : A → Put) (get : Get A) (xs : List A)
    → All (λ x. Codec (put x) get x) xs
    → Codec (each put xs) (times (length xs) get) xs
unfolding each times
Codec-each put get [] h = Codec-pure []
Codec-each put get (x ∷ xs) h =
    Codec-then _ h.0 (Codec-map (λ ys. x ∷ ys) (Codec-each put get xs h.1))

-- Decoding what was encoded, whatever follows it.
pub Codec-decodes :
    {A : Type 0} (put : Put) (get : Get A) (a : A) → Codec put get a → Reads get (written put) a
Codec-decodes put get a c = rw (Emits-written put c.bytes c.emits) c.reads

-- With nothing behind it, decoding takes all there is.
pub Codec-whole :
    {A : Type 0} (put : Put) (get : Get A) (a : A) (ending : IoError)
    → Codec put get a
    → get (reader (written put) ending) ≡ (a, reader [] ending)
Codec-whole put get a ending c = rw append-nil at (Codec-decodes put get a c ending [])
