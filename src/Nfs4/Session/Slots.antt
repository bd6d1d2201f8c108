-- ===== src/Nfs4/Session/Slots.antt =====
-- The list of slots: how many are free, and which are held.
use go_nfs_client.Prelude.{
  ℕ, zero, suc, ◌+◌, ◌≤◌, ◌<◌, ◌≡◌, ◌≢◌, refl, false, List, [], ◌∷◌, ◌++◌, Option, some, none,
  length, get_elem?, set, replicate, if◌then◌else◌, ◌==◌, arith, Option-cases, Bool-cases, inl, inr,
  All,
}
use go_nfs_client.Nfs4.Session.{Slot, SlotLease, find_free}

-- 1 where a slot is there and in use.
abbrev pub used : Option Slot → ℕ
used none = 0
used (some t) = if t.in_use then 1 else 0

unfoldable pub free_count : List Slot → ℕ
free_count [] = 0
free_count (t ∷ slots) = (if t.in_use then 0 else 1) + free_count slots

pub used-le : (o : Option Slot) → used o ≤ 1
used-le none = omega arith
used-le (some t) = ground arith

-- How many leases are on slot `i`.
unfoldable pub held : ℕ → List SlotLease → ℕ
held i [] = 0
held i (l ∷ leases) = (if l.slot_id == i then 1 else 0) + held i leases

pub held-append : (i : ℕ) (xs ys : List SlotLease) → held i (xs ++ ys) ≡ held i xs + held i ys
unfolding held
held-append i [] ys = omega arith
held-append i (x ∷ xs) ys = omega (arith, held-append i xs ys)

pub held_self :
    (l : SlotLease) (xs : List SlotLease) → held l.slot_id (l ∷ xs) ≡ 1 + held l.slot_id xs
unfolding held
held_self l xs = ground arith

pub held-other :
    (i : ℕ) (l : SlotLease) (xs : List SlotLease) → l.slot_id ≢ i → held i (l ∷ xs) ≡ held i xs
unfolding held
held-other i l xs h = ground arith

pub get_elem?-lt :
    {A : Type 0} (xs : List A) (i : ℕ) (x : A) → get_elem? xs i ≡ some x → i < length xs
get_elem?-lt [] i x h = cc
get_elem?-lt (y ∷ xs) zero x h = omega arith
get_elem?-lt (y ∷ xs) (suc i) x h = omega (arith, get_elem?-lt xs i x h)

pub find_free-some :
    (slots : List Slot) (i : ℕ) (t : Slot)
    → find_free slots ≡ some (i, t)
    → (get_elem? slots i ≡ some t) × (t.in_use ≡ false)
unfolding find_free
find_free-some [] i t h = cc
find_free-some (s ∷ slots) i t h = elim (Bool-cases s.in_use) [
  | inr e ↦ ground arith
  | inl e ↦ elim (Option-cases (find_free slots)) [
    | inl e' ↦ ground arith
    | inr ((j, u), e') ↦ ground (arith, find_free-some slots j u e')
  ]
]

pub find_free-none : (slots : List Slot) → find_free slots ≡ none → free_count slots ≡ 0
unfolding find_free free_count
find_free-none [] h = refl
find_free-none (s ∷ slots) h = elim (Bool-cases s.in_use) [
  | inr e ↦ ground arith
  | inl e ↦ elim (Option-cases (find_free slots)) [
    | inl e' ↦ ground (arith, find_free-none slots e')
    | inr ((j, u), e') ↦ ground arith
  ]
]

-- Setting a slot moves the count by that slot alone.
pub free_count-set :
    (slots : List Slot) (i : ℕ) (t u : Slot)
    → get_elem? slots i ≡ some t
    → free_count (set slots i u) + (if t.in_use then 0 else 1)
      ≡ free_count slots + (if u.in_use then 0 else 1)
unfolding free_count
free_count-set [] i t u h = cc
free_count-set (s ∷ slots) zero t u h = ground arith
free_count-set (s ∷ slots) (suc i) t u h = omega (arith, free_count-set slots i t u h)

pub free_count-le : (slots : List Slot) → free_count slots ≤ length slots
unfolding free_count
free_count-le [] = omega arith
free_count-le (t ∷ slots) = ground (arith, free_count-le slots)

pub free_count-new : (n k : ℕ) → free_count (replicate n (record { seq = k; in_use = false })) ≡ n
unfolding free_count
free_count-new zero k = refl
free_count-new (suc n) k = omega (arith, free_count-new n k)

pub used-new :
    (n k i : ℕ) → used (get_elem? (replicate n (record { seq = k; in_use = false })) i) ≡ 0
used-new zero k i = refl
used-new (suc n) k zero = refl
used-new (suc n) k (suc i) = used-new n k i

-- Where no lease is on slot `i`, each lease is on another slot.
pub held-zero : (i : ℕ) (xs : List SlotLease) → held i xs ≡ 0 → All (λ l. l.slot_id ≢ i) xs
unfolding held
held-zero i [] h = tt
held-zero i (l ∷ xs) h = ((λ e. ground arith), held-zero i xs (omega arith))

-- Where no slot is in use, all are free.
pub free_count-all :
    (slots : List Slot) → ((i : ℕ) → used (get_elem? slots i) ≡ 0) → free_count slots ≡ length slots
unfolding free_count
free_count-all [] h = refl
free_count-all (t ∷ slots) h = elim (Bool-cases t.in_use) [
  | inl e ↦ absurd (omega (arith, rw e at (h 0)))
  | inr e ↦ rw e (omega (arith, free_count-all slots (λ i. h (suc i))))
]
