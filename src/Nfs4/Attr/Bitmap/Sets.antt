-- ===== src/Nfs4/Attr/Bitmap/Sets.antt =====
-- A bitmap is a set of attribute numbers.
use go_nfs_client.Prelude.{
  ℕ, zero, suc, ◌+◌, ◌*◌, ◌-◌, ◌/◌, ◌%◌, ◌≤◌, ◌<◌, ◌≡◌, ◌≢◌, refl, ◌∙◌, Bool, true, false, ◌||◌,
  ◌&&◌, some, none, Option-cases, Bool-cases, ==_iff, inl, inr, List, [], ◌∷◌, ◌++◌, if◌then◌else◌,
  length, length-set, length-replicate, get_elem?, get_elem?-set_self, get_elem?-set_ne, set,
  replicate, ltb, leb, le→leb, ◌==◌, arith, All,
}
use go_nfs_client.Prelude.Bits.{test_bit, set_bit, test_bit-set_bit, test_bit-zero}
use go_nfs_client.Nfs4.Attr.Bitmap.{
  Mask, max_of, mark, mark_all, bitmap_for, has, word_attrs, set_attrs_from, set_attrs,
}

unfoldable pub member : ℕ → List ℕ → Bool
member a [] = false
member a (x ∷ xs) = (a == x) || member a xs

word_there : (b : Mask) (i : ℕ) → i < length b → (w : ℕ) × (get_elem? b i ≡ some w)
word_there [] i h = absurd (omega arith)
word_there (w ∷ b) zero h = (w, refl)
word_there (w ∷ b) (suc i) h = word_there b i (omega arith)

length-mark : (b : Mask) (a : ℕ) → length (mark b a) ≡ length b
unfolding mark
length-mark b a = elim (Option-cases (get_elem? b (a / 32))) [
  | inl e ↦ ground arith
  | inr (w, e) ↦ ground (arith, length-set b (a / 32) (set_bit (a % 32) w))
]

mark-some :
    (b : Mask) (x w : ℕ)
    → get_elem? b (x / 32) ≡ some w
    → mark b x ≡ set b (x / 32) (set_bit (x % 32) w)
unfolding mark
mark-some b x w e = rw (mark, e) refl

has-some : (b : Mask) (a w : ℕ) → get_elem? b (a / 32) ≡ some w → has b a ≡ test_bit (a % 32) w
unfolding has
has-some b a w e = rw (has, e) refl

same_bit :
    (a x : ℕ)
    → a / 32 ≡ x / 32
    → (v : Bool) → (if a % 32 == x % 32 then true else v) ≡ (if a == x then true else v)
same_bit a x q v = ground arith

has-set_other : (b : Mask) (x a v : ℕ) → x / 32 ≢ a / 32 → has (set b (x / 32) v) a ≡ has b a
unfolding has
has-set_other b x a v ne = rw (has, get_elem?-set_ne b (x / 32) (a / 32) v ne) refl

different : (a x : ℕ) → x / 32 ≢ a / 32 → (v : Bool) → v ≡ (if a == x then true else v)
different a x ne v = elim (Bool-cases (a == x)) [
  | inl p ↦ absurd (omega (arith, (==_iff a x).0 p, ne))
  | inr p ↦ rw p refl
]

-- Marking an attribute adds it and nothing else.
has-mark :
    (b : Mask) (x a : ℕ) → x / 32 < length b → has (mark b x) a ≡ (if a == x then true else has b a)
has-mark b x a h =
    let (w, e) = word_there b (x / 32) h in
    rw (mark-some b x w e) (elim (Bool-cases (a / 32 == x / 32)) [
      | inl p ↦
          let q : a / 32 ≡ x / 32 = (==_iff (a / 32) (x / 32)).0 p in
          let here =
            has-some (set b (x / 32) (set_bit (x % 32) w)) a (set_bit (x % 32) w)
              (rw q (get_elem?-set_self b (x / 32) (set_bit (x % 32) w) h)) in
          let before = has-some b a w (rw q e) in
          here
          ∙ test_bit-set_bit (a % 32) (x % 32) w
          ∙ rw before (same_bit a x q (test_bit (a % 32) w))
      | inr p ↦
          let ne : x / 32 ≢ a / 32 = λ q. ground arith in
          has-set_other b x a _ ne ∙ different a x ne (has b a)
    ])

has-mark_all :
    (b : Mask) (attrs : List ℕ) (a : ℕ)
    → All (λ x. x / 32 < length b) attrs
    → has (mark_all b attrs) a ≡ (has b a || member a attrs)
unfolding mark_all member
has-mark_all b [] a h = ground arith
has-mark_all b (x ∷ attrs) a h =
    let k = has-mark_all (mark b x) attrs a (rw (length-mark b x) h.1) in
    let m = has-mark b x a h.0 in k ∙ rw m (ground arith)

max_of-le : (m : ℕ) (attrs : List ℕ) → m ≤ max_of m attrs
unfolding max_of
max_of-le m [] = omega arith
max_of-le m (a ∷ attrs) = elim (Bool-cases (ltb m a)) [
  | inl e ↦ ground (arith, max_of-le a attrs)
  | inr e ↦ ground (arith, max_of-le m attrs)
]

All-le-max_of : (m : ℕ) (attrs : List ℕ) → All (λ x. x ≤ max_of m attrs) attrs
unfolding max_of
All-le-max_of m [] = tt
All-le-max_of m (a ∷ attrs) =
    let m' = if ltb m a then a else m in
    let above : a ≤ m' = ground arith in
    (omega (arith, above, max_of-le m' attrs), All-le-max_of m' attrs)

has-zeros : (n a : ℕ) → has (replicate n 0) a ≡ false
unfolding has
has-zeros n a = go n (a / 32)
  where
    go :
        (n i : ℕ)
        → (elim (get_elem? {A = ℕ} (replicate n 0) i) [
          | none ↦ false
          | some w ↦ test_bit (a % 32) w
        ])
          ≡ false
    go zero i = refl
    go (suc n) zero = test_bit-zero (a % 32)
    go (suc n) (suc i) = go n i

All-words :
    (n m : ℕ) (attrs : List ℕ) → m / 32 < n → All (λ x. x ≤ m) attrs → All (λ x. x / 32 < n) attrs
All-words n m [] h k = tt
All-words n m (a ∷ attrs) h k = (omega (arith, k.0), All-words n m attrs h k.1)

-- The bitmap that BitmapFor builds has exactly the attributes that it was given.
pub has-bitmap_for : (attrs : List ℕ) (a : ℕ) → has (bitmap_for attrs) a ≡ member a attrs
unfolding bitmap_for
has-bitmap_for attrs a =
    let n = max_of 0 attrs / 32 + 1 in
    let words =
      All-words (length {A = ℕ} (replicate n 0)) (max_of 0 attrs) attrs
        (omega (arith, length-replicate {A = ℕ} n 0)) (All-le-max_of 0 attrs) in
    has-mark_all (replicate n 0) attrs a words ∙ rw (has-zeros n a) (ground arith)

member-append : (a : ℕ) (xs ys : List ℕ) → member a (xs ++ ys) ≡ (member a xs || member a ys)
unfolding member
member-append a [] ys = ground arith
member-append a (x ∷ xs) ys = ground (arith, member-append a xs ys)

-- Of a word, the listed attributes are those whose bit is set, from `bit` on.
member-word_attrs :
    (n bit word w a : ℕ)
    → member a (word_attrs n bit word w) ≡ (
        if leb (word * 32 + bit) a && ltb a (word * 32 + bit + n)
        then test_bit (a - word * 32) w
        else false)
unfolding member word_attrs
member-word_attrs zero bit word w a = ground arith
member-word_attrs (suc n) bit word w a =
    let ih = member-word_attrs n (bit + 1) word w a in
    elim (Bool-cases (a == word * 32 + bit)) [
      | inl p ↦
          let e : a ≡ word * 32 + bit = (==_iff a (word * 32 + bit)).0 p in
          let q : a - word * 32 ≡ bit = omega (arith, e) in
          rw q (elim (Bool-cases (test_bit bit w)) [
            | inl t ↦ rw t (ground arith)
            | inr t ↦ rw t (rw ih (rw q (ground arith)))
          ])
      | inr p ↦ elim (Bool-cases (test_bit bit w)) [
        | inl t ↦ rw t (ground (arith, ih))
        | inr t ↦ rw t (ground (arith, ih))
      ]
    ]

abbrev bit_at : Mask → ℕ → ℕ → Bool
bit_at b i k = elim (get_elem? b i) [ none ↦ false | some w ↦ test_bit k w ]

member-set_attrs_from :
    (word : ℕ) (b : Mask) (a : ℕ)
    → member a (set_attrs_from word b)
      ≡ (if leb (word * 32) a then bit_at b (a / 32 - word) (a % 32) else false)
unfolding member set_attrs_from
member-set_attrs_from word [] a = ground arith
member-set_attrs_from word (w ∷ b) a =
    let ih = member-set_attrs_from (word + 1) b a in
    let here = member-word_attrs 32 0 word w a in
    rw (member-append a (word_attrs 32 0 word w) (set_attrs_from (word + 1) b), here, ih)
      (elim (Bool-cases (leb (word * 32) a)) [
        | inr p ↦ ground arith
        | inl p ↦ elim (Bool-cases (a / 32 == word)) [
          | inl q ↦
              let e : a / 32 ≡ word = (==_iff (a / 32) word).0 q in
              let i : a / 32 - word ≡ 0 = omega (arith, e) in
              let k : a - word * 32 ≡ a % 32 = omega (arith, e) in rw (i, k) (ground arith)
          | inr q ↦
              let i : a / 32 - word ≡ suc (a / 32 - (word + 1)) = ground arith in
              rw i (ground arith)
        ]
      ])

-- SetAttrs lists exactly the attributes that Has finds.
pub member-set_attrs : (b : Mask) (a : ℕ) → member a (set_attrs b) ≡ has b a
unfolding set_attrs has
member-set_attrs b a =
    let e : a / 32 - 0 ≡ a / 32 = omega arith in
    member-set_attrs_from 0 b a ∙ rw (le→leb 0 a (omega arith), e) refl
