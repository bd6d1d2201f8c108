-- ===== src/Nfs4/Session/Invariant.antt =====
-- The slot table under any interleaving of its users.
use go_nfs_client.Prelude.{
  ℕ, zero, suc, ◌+◌, ◌%◌, ◌^◌, ◌≤◌, ◌≡◌, ◌≢◌, refl, ◌∙◌, subst, true, false, ◌∷◌, some, none,
  length, length-set, get_elem?, set, ltb, if◌then◌else◌, ◌==◌, arith, Option-cases, Bool-cases,
  ==_iff, inl, inr, All, All-zip, get_elem?-set_self, get_elem?-set_ne,
}
use go_nfs_client.Nfs4.Session.{
  Slot, Session, SlotLease, Table, take_token, put_token, find_free, claim_slot,
}
use go_nfs_client.Nfs4.Session.Slots.{
  used, free_count, held, held_self, held-other, get_elem?-lt, find_free-some, find_free-none,
  free_count-set,
}

-- A lease on a slot: the slot is in use and waits for the lease's sequence id.
abbrev pub Fresh : Session → SlotLease → Type 0
Fresh s l =
    (get_elem? s.slots l.slot_id ≡ some (record { seq = l.seq; in_use = true }))
    × (l.slot_id ≤ s.highest)

-- Each slot is in use exactly if one lease is on it; the free slots are those that have a token, are
-- claimed or are about to give their token back.
pub record Invariant (t : Table) : Type 0 where
  pub counts : (i : ℕ) → held i t.leases ≡ used (get_elem? t.session.slots i)
  pub balance : free_count t.session.slots ≡ t.session.free + t.claiming + t.returning
  pub few : length t.session.slots ≤ 2 ^ 32
  pub fresh : All (Fresh t.session) t.leases

pub take_token_lem :
    (s s' : Session)
    → take_token s ≡ some s'
    → (s.free ≡ suc s'.free) × (s' ≡ record s { free = s'.free })
unfolding take_token
take_token_lem s s' h = go s.free refl
  where
    go : (n : ℕ) → s.free ≡ n → (s.free ≡ suc s'.free) × (s' ≡ record s { free = s'.free })
    go zero e = ground arith
    go (suc n) e = ground arith

pub take-Invariant :
    (t : Table) (s : Session)
    → take_token t.session ≡ some s
    → Invariant t
    → Invariant (record t { session = s; claiming = t.claiming + 1 })
take-Invariant t s h inv =
    let (e, same) = take_token_lem t.session s h in
    rw same (record {
      counts = inv.counts;
      balance = omega (arith, inv.balance);
      few = inv.few;
      fresh = inv.fresh;
    })

pub give_back-Invariant :
    (t : Table) (n : ℕ)
    → t.returning ≡ suc n
    → Invariant t
    → Invariant (record t { session = put_token t.session; returning = n })
unfolding put_token
give_back-Invariant t n h inv = record {
  counts = inv.counts;
  balance = omega (arith, inv.balance);
  few = inv.few;
  fresh = inv.fresh;
}

abbrev pub raised : ℕ → ℕ → ℕ
raised highest i = if ltb highest i then i else highest

-- What claiming slot `i`, which is `u`, makes of a session, and the lease on it.
abbrev pub claimed : Session → ℕ → Slot → Session
claimed s i u = record s {
  slots = set s.slots i (record { seq = u.seq; in_use = true });
  highest = raised s.highest i;
}

abbrev pub lease_of : Session → ℕ → Slot → SlotLease
lease_of s i u = record { slot_id = i; seq = u.seq; highest = raised s.highest i; released = false }

pub claim_slot-some :
    (s s' : Session) (l : SlotLease)
    → length s.slots ≤ 2 ^ 32
    → claim_slot s ≡ (some l, s')
    → (i : ℕ) × (u : Slot) × (find_free s.slots ≡ some (i, u))
      × (l ≡ lease_of s i u)
      × (s' ≡ claimed s i u)
unfolding claim_slot
claim_slot-some s s' l few h = elim (Option-cases (find_free s.slots)) [
  | inl e ↦ absurd (ground arith)
  | inr ((i, u), e) ↦
      let m : i % 2 ^ 32 ≡ i =
        omega (arith, get_elem?-lt s.slots i u (find_free-some s.slots i u e).0) in
      (i, u, e, ground (arith, m), ground (arith, m))
]

module _ (t : Table) (n i : ℕ) (u : Slot) (c : t.claiming ≡ suc n)
    (e : find_free t.session.slots ≡ some (i, u)) (inv : Invariant t) where
  at_i : (get_elem? t.session.slots i ≡ some u) × (u.in_use ≡ false)
  at_i = find_free-some t.session.slots i u e

  claimed_slots_self :
      get_elem? (claimed t.session i u).slots i ≡ some (record { seq = u.seq; in_use = true })
  claimed_slots_self =
      get_elem?-set_self t.session.slots i _ (get_elem?-lt t.session.slots i u at_i.0)

  unclaimed : used (get_elem? t.session.slots i) ≡ 0
  unclaimed = rw at_i.0 (rw at_i.1 refl)

  claimed-counts :
      (j : ℕ)
      → held j (lease_of t.session i u ∷ t.leases)
        ≡ used (get_elem? (claimed t.session i u).slots j)
  claimed-counts j = elim (Bool-cases (i == j)) [
    | inl h ↦
        subst
          (λ k.
            held k (lease_of t.session i u ∷ t.leases)
            ≡ used (get_elem? (claimed t.session i u).slots k))
          ((==_iff i j).0 h)
          (rw claimed_slots_self
            (omega (arith, held_self (lease_of t.session i u) t.leases, inv.counts i, unclaimed)))
    | inr h ↦
        let ne : i ≢ j = λ p. ground arith in
        rw (get_elem?-set_ne t.session.slots i j (record { seq = u.seq; in_use = true }) ne)
          (held-other j (lease_of t.session i u) t.leases ne ∙ inv.counts j)
  ]

  -- A slot that is in use is not the one that is claimed.
  other_slot : (l : SlotLease) → Fresh t.session l → i ≢ l.slot_id
  other_slot l f p = ground (arith, at_i, f)

  claimed-Fresh :
      (l : SlotLease) → Fresh t.session l → Fresh t.session l → Fresh (claimed t.session i u) l
  claimed-Fresh l f g =
      (get_elem?-set_ne t.session.slots i l.slot_id _ (other_slot l f) ∙ f.0, ground (arith, f.1))

  pub claim-Invariant : Invariant (record t {
    session = claimed t.session i u;
    claiming = n;
    leases = lease_of t.session i u ∷ t.leases;
  })
  claim-Invariant = record {
    counts = claimed-counts;
    balance =
        let f =
          rw at_i.1 at
            (free_count-set t.session.slots i u (record { seq = u.seq; in_use = true }) at_i.0) in
        omega (arith, inv.balance, f);
    few =
        omega
          (arith, inv.few, length-set t.session.slots i (record { seq = u.seq; in_use = true }));
    fresh = (
      (claimed_slots_self, ground arith),
      All-zip (Fresh t.session) (Fresh t.session) (Fresh (claimed t.session i u)) t.leases
          claimed-Fresh inv.fresh inv.fresh,
    );
  }

pub give_up-never :
    (t : Table) (n : ℕ) (s : Session)
    → Invariant t
    → t.claiming ≡ suc n
    → claim_slot t.session ≢ (none, s)
unfolding claim_slot
give_up-never t n s inv c h = elim (Option-cases (find_free t.session.slots)) [
  | inl e ↦ omega (arith, inv.balance, find_free-none t.session.slots e)
  | inr ((i, u), e) ↦ ground arith
]
