-- ===== src/Nfs4/Session/Safety.antt =====
-- What AcquireSlot, Done and Retry guarantee, whatever goroutines use the session at once.
use go_nfs_client.Prelude.{
  ℕ, suc, ◌+◌, ◌^◌, ◌≤◌, ◌<◌, ◌≡◌, ◌≢◌, sym, subst, Bool, true, false, Bool-cases, inl, inr, List,
  [], ◌∷◌, ◌++◌, none, length, length-replicate, get_elem?, arith,
}
use go_nfs_client.Prelude.Int.{ℤ}
use go_nfs_client.Xdr.Io.{Bytes}
use go_nfs_client.Nfs4.Session.{
  Slot, Session, SlotLease, Table, Step, take, claim, give_up, release_, give_back, Reachable,
  start, step, claim_slot, release_slot, freed, new_session, new_table, at_least_one,
}
use go_nfs_client.Nfs4.Session.Slots.{
  used-le, free_count-le, free_count-new, free_count-all, used-new, held, held-append, held_self,
}
use go_nfs_client.Nfs4.Session.Releases.{release-Invariant, freed_lem}
use go_nfs_client.Nfs4.Session.Invariant.{
  Invariant, take-Invariant, give_back-Invariant, claim_slot-some, claim-Invariant, give_up-never,
}

pub new_table-Invariant :
    (id : Bytes) (n : ℤ) → at_least_one n ≤ 2 ^ 32 → Invariant (new_table id n)
unfolding new_session held
new_table-Invariant id n h = record {
  counts = λ i. sym (used-new (at_least_one n) 1 i);
  balance = omega (arith, free_count-new (at_least_one n) 1);
  few =
      omega (
        arith,
        h,
        length-replicate {A = Slot} (at_least_one n) (record { seq = 1; in_use = false }),
      );
  fresh = tt;
}

release_slot-true :
    (advance : Bool) (l l' : SlotLease) (s s' : Session)
    → release_slot advance l s ≡ (true, l', s')
    → s' ≡ record s { slots = freed advance l.slot_id s.slots }
unfolding release_slot
release_slot-true advance l l' s s' h = elim (Bool-cases l.released) [
  | inl e ↦ ground arith
  | inr e ↦ ground arith
]

-- Every step of every goroutine keeps the invariant of the table: a slot is in use exactly if one
-- lease is on it, a lease carries the sequence id of its slot, and the free slots are those with a
-- token, a claim or a release under way.
pub Step-Invariant : (t t' : Table) → Step t t' → Invariant t → Invariant t'
Step-Invariant t _ (take _ s h) inv = take-Invariant t s h inv
Step-Invariant t _ (claim _ n l s c h) inv =
    let (i, u, e, p, q) = claim_slot-some t.session s l inv.few h in
    rw (p, q) (claim-Invariant t n i u c e inv)
Step-Invariant t _ (give_up _ n s c h) inv = absurd (give_up-never t n s inv c h)
Step-Invariant t _ (release_ _ advance front l back l' s e h) inv =
    rw (release_slot-true advance l l' t.session s h, freed_lem t advance front l back e inv)
      (release-Invariant t advance front l back e inv)
Step-Invariant t _ (give_back _ n h) inv = give_back-Invariant t n h inv

module _ (id : Bytes) (slot_count : ℤ) (few : at_least_one slot_count ≤ 2 ^ 32) where
  Reachable-Invariant : (t : Table) → Reachable id slot_count t → Invariant t
  Reachable-Invariant t start = new_table-Invariant id slot_count few
  Reachable-Invariant t (step {t = u} r s) = Step-Invariant u t s (Reachable-Invariant u r)

  -- In a session of at most 2^32 slots no two leases that are out at the same time are on the same
  -- slot.
  pub leases-ne :
      (t : Table) (front mid back : List SlotLease) (l m : SlotLease)
      → Reachable id slot_count t
      → t.leases ≡ front ++ (l ∷ (mid ++ (m ∷ back)))
      → l.slot_id ≢ m.slot_id
  leases-ne t front mid back l m r e same =
      let i = l.slot_id in
      let c =
        rw
          (
            e,
            held-append i front (l ∷ (mid ++ (m ∷ back))),
            held_self l (mid ++ (m ∷ back)),
            held-append i mid (m ∷ back),
          )
          at ((Reachable-Invariant t r).counts i) in
      let d = subst (λ k. held k (m ∷ back) ≡ 1 + held k back) (sym same) (held_self m back) in
      omega (arith, c, d, used-le (get_elem? t.session.slots i))

  -- In a session of at most 2^32 slots a goroutine that has a token always finds a free slot:
  -- AcquireSlot never gives up with context.Canceled.
  pub claim_slot-ne-none :
      (t : Table) (n : ℕ) (s : Session)
      → Reachable id slot_count t
      → t.claiming ≡ suc n
      → claim_slot t.session ≢ (none, s)
  claim_slot-ne-none t n s r c = give_up-never t n s (Reachable-Invariant t r) c

  -- A release never blocks on its token in a session of at most 2^32 slots: the channel of free
  -- tokens has room.
  pub free-lt :
      (t : Table) (n : ℕ)
      → Reachable id slot_count t
      → t.returning ≡ suc n
      → t.session.free < length t.session.slots
  free-lt t n r c = omega (arith, (Reachable-Invariant t r).balance, free_count-le t.session.slots)

  -- No slot of a session of at most 2^32 slots is lost: once all leases are released and all
  -- goroutines are through, there is a token for every slot.
  pub free-eq :
      (t : Table)
      → Reachable id slot_count t
      → t.claiming ≡ 0
      → t.returning ≡ 0
      → t.leases ≡ []
      → t.session.free ≡ length t.session.slots
  unfolding held
  free-eq t r c b e =
      let inv = Reachable-Invariant t r in
      let all = free_count-all t.session.slots λ i. sym (rw e at (inv.counts i)) in
      omega (arith, inv.balance, all)
