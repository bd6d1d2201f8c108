-- ===== src/Nfs4/Session/Releases.antt =====
-- The slot table after a release.
use go_nfs_client.Prelude.{
  ℕ, ◌+◌, ◌%◌, ◌^◌, ◌≡◌, ◌≢◌, refl, sym, ◌∙◌, subst, Bool, true, false, List, ◌∷◌, ◌++◌, some,
  length-set, get_elem?, set, if◌then◌else◌, ◌==◌, arith, Bool-cases, ==_iff, inl, inr, All,
  All-append, All-front, All-back, All-zip, get_elem?-set_self, get_elem?-set_ne,
}
use go_nfs_client.Nfs4.Session.{Session, SlotLease, Table, freed}
use go_nfs_client.Nfs4.Session.Slots.{
  used, held, held-append, held_self, held-other, held-zero, get_elem?-lt, free_count-set,
}
use go_nfs_client.Nfs4.Session.Invariant.{Fresh, Invariant}

-- Releasing a lease that is out.
module _ (t : Table) (advance : Bool) (front : List SlotLease) (l : SlotLease)
    (back : List SlotLease) (e : t.leases ≡ front ++ (l ∷ back)) (inv : Invariant t) where
  abbrev pub next_seq : ℕ
  next_seq = if advance then (l.seq + 1) % 2 ^ 32 else l.seq

  split-Fresh : All (Fresh t.session) (front ++ (l ∷ back))
  split-Fresh = rw e at inv.fresh

  at_l : get_elem? t.session.slots l.slot_id ≡ some (record { seq = l.seq; in_use = true })
  at_l = (All-back (Fresh t.session) front (l ∷ back) split-Fresh).0.0

  pub freed_lem :
      freed advance l.slot_id t.session.slots
      ≡ set t.session.slots l.slot_id (record { seq = next_seq; in_use = false })
  unfolding freed
  freed_lem = rw (freed, at_l) refl

  others : held l.slot_id (front ++ back) ≡ 0
  others =
      let c =
        rw (e, held-append l.slot_id front (l ∷ back), held_self l back, at_l) at
          (inv.counts l.slot_id) in
      omega (arith, held-append l.slot_id front back, c)

  abbrev pub released : Session
  released = record (t.session) {
    slots = set t.session.slots l.slot_id (record { seq = next_seq; in_use = false });
  }

  released-counts : (j : ℕ) → held j (front ++ back) ≡ used (get_elem? released.slots j)
  released-counts j = elim (Bool-cases (l.slot_id == j)) [
    | inl h ↦
        subst (λ k. held k (front ++ back) ≡ used (get_elem? released.slots k))
          ((==_iff l.slot_id j).0 h)
          (rw
            (get_elem?-set_self t.session.slots l.slot_id
              (record { seq = next_seq; in_use = false })
              (get_elem?-lt t.session.slots l.slot_id _ at_l))
            others)
    | inr h ↦
        let ne : l.slot_id ≢ j = λ p. ground arith in
        let c = rw (e, held-append j front (l ∷ back), held-other j l back ne) at (inv.counts j) in
        rw
          (get_elem?-set_ne t.session.slots l.slot_id j (record { seq = next_seq; in_use = false })
            ne)
          (held-append j front back ∙ c)
  ]

  released-Fresh : (m : SlotLease) → Fresh t.session m → m.slot_id ≢ l.slot_id → Fresh released m
  released-Fresh m f ne =
      (get_elem?-set_ne t.session.slots l.slot_id m.slot_id _ (λ p. ne (sym p)) ∙ f.0, f.1)

  left-Fresh : All (Fresh t.session) (front ++ back)
  left-Fresh =
      All-append (Fresh t.session) front back
        (All-front (Fresh t.session) front (l ∷ back) split-Fresh)
        (All-back (Fresh t.session) front (l ∷ back) split-Fresh).1

  pub release-Invariant :
      Invariant
        (record t { session = released; leases = front ++ back; returning = t.returning + 1 })
  release-Invariant = record {
    counts = released-counts;
    balance = omega (
      arith,
      inv.balance,
      free_count-set t.session.slots l.slot_id _ (record { seq = next_seq; in_use = false }) at_l,
    );
    few = omega (
      arith,
      inv.few,
      length-set t.session.slots l.slot_id (record { seq = next_seq; in_use = false }),
    );
    fresh =
        All-zip (Fresh t.session) (λ m. m.slot_id ≢ l.slot_id) (Fresh released) (front ++ back)
          released-Fresh left-Fresh (held-zero l.slot_id (front ++ back) others);
  }
