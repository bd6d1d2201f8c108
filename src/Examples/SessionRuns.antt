-- ===== src/Examples/SessionRuns.antt =====
-- Runs of a session with two slots, and of its caller.
use go_nfs_client.Prelude.{
  ℕ, ◌≡◌, ◌≢◌, refl, Bool, true, false, some, none, List, [], ◌∷◌, get_elem?, length, arith,
}
use go_nfs_client.Prelude.Int.{pos}
use go_nfs_client.Nfs4.Session.{
  Slot, SlotLease, Table, Step, take, claim, release_, give_back, Reachable, start, step,
  take_token, claim_slot, find_free, put_token, release_slot, freed, new_session, new_table,
}
use go_nfs_client.Nfs4.Session.Invariant.{Invariant}
use go_nfs_client.Nfs4.Session.Safety.{new_table-Invariant, Step-Invariant, leases-ne, free-eq}
use go_nfs_client.Nfs4.Caller.{Answer}
use go_nfs_client.Nfs4.SessionCaller.{new_sequence_res, finish}
use go_nfs_client.Nfs4.SessionCaller.Wrapping.{finish-slots}

abbrev table : List Slot → ℕ → ℕ → ℕ → List SlotLease → ℕ → Table
table slots highest free claiming leases returning = record {
  session = record { id = []; slots = slots; highest = highest; free = free };
  claiming = claiming;
  leases = leases;
  returning = returning;
}

abbrev slot : ℕ → Bool → Slot
slot seq in_use = record { seq = seq; in_use = in_use }

abbrev lease : ℕ → ℕ → SlotLease
lease slot_id highest = record { slot_id = slot_id; seq = 1; highest = highest; released = false }

abbrev idle : List Slot
idle = slot 1 false ∷ slot 1 false ∷ []

abbrev taken : Table
taken = table idle 0 1 1 [] 0

abbrev one_out : Table
one_out = table (slot 1 true ∷ slot 1 false ∷ []) 0 1 0 (lease 0 0 ∷ []) 0

abbrev both_out : Table
both_out = table (slot 1 true ∷ slot 1 true ∷ []) 1 0 0 (lease 1 1 ∷ lease 0 0 ∷ []) 0

abbrev freed_one : Table
freed_one = table (slot 2 false ∷ slot 1 false ∷ []) 0 1 0 [] 1

abbrev done_one : Table
done_one = table (slot 2 false ∷ slot 1 false ∷ []) 0 2 0 [] 0

taken-Step : Step (new_table [] (pos 2)) taken
unfolding take_token new_session
taken-Step = take (new_table [] (pos 2)) taken.session refl

Step-Invariant_example : Invariant taken
Step-Invariant_example =
    Step-Invariant (new_table [] (pos 2)) taken taken-Step
      (new_table-Invariant [] (pos 2) (omega arith))

taken-Reachable : Reachable [] (pos 2) taken
taken-Reachable = step start taken-Step

one_out-Reachable : Reachable [] (pos 2) one_out
unfolding claim_slot find_free
one_out-Reachable = step taken-Reachable (claim taken 0 (lease 0 0) one_out.session refl refl)

both_out-Reachable : Reachable [] (pos 2) both_out
unfolding take_token claim_slot find_free
both_out-Reachable =
    step (step one_out-Reachable (take one_out (record (one_out.session) { free = 0 }) refl)) (
      claim (table (slot 1 true ∷ slot 1 false ∷ []) 0 0 1 (lease 0 0 ∷ []) 0) 0 (lease 1 1)
        both_out.session refl refl)

freed_one-Reachable : Reachable [] (pos 2) freed_one
unfolding release_slot freed
freed_one-Reachable = step one_out-Reachable (
    release_ one_out true [] (lease 0 0) [] (record (lease 0 0) { released = true })
      freed_one.session refl refl)

done_one-Reachable : Reachable [] (pos 2) done_one
unfolding put_token
done_one-Reachable = step freed_one-Reachable (give_back freed_one 0 refl)

leases-ne_example : (lease 1 1).slot_id ≢ (lease 0 0).slot_id
leases-ne_example =
    leases-ne [] (pos 2) (omega arith) both_out [] [] [] (lease 1 1) (lease 0 0) both_out-Reachable
      refl

free-eq_example : done_one.session.free ≡ length done_one.session.slots
free-eq_example = free-eq [] (pos 2) (omega arith) done_one done_one-Reachable refl refl refl

abbrev answered : Answer
answered = record { res = none; err = none }

finish-slots_example :
    let s' = (finish answered new_sequence_res (lease 0 0) one_out.session).1 in
    (get_elem? s'.slots 0 ≡ some (slot 2 false))
    × (get_elem? s'.slots 1 ≡ some (slot 1 false))
    × (s'.free ≡ 2)
finish-slots_example =
    finish-slots answered new_sequence_res (lease 0 0) one_out.session (slot 1 true) 1 refl
      (omega arith) refl
