-- ===== src/Nfs4/Session.antt =====
-- nfs4/session.go: the slot table of an NFSv4.1 session.
pub mod Slots
pub mod Invariant
pub mod Releases
pub mod Safety
use go_nfs_client.Prelude.{
  ℕ, zero, suc, ◌+◌, ◌%◌, ◌^◌, ◌<◌, ◌≡◌, Bool, true, false, List, [], ◌∷◌, ◌++◌, Option, some, none,
  length, get_elem?, set, replicate, ltb, if◌then◌else◌,
}
use go_nfs_client.Prelude.Int.{ℤ, pos, negsuc}
use go_nfs_client.Xdr.Io.{Bytes}

abbrev pub default_slot_count : ℕ
default_slot_count = 16

pub record Slot : Type 0 where
  pub seq : ℕ
  pub in_use : Bool

-- `free` is the number of tokens in the channel of that name, whose capacity is the number of slots.
pub record Session : Type 0 where
  pub id : Bytes
  pub slots : List Slot
  pub highest : ℕ
  pub free : ℕ

abbrev pub at_least_one : ℤ → ℕ
at_least_one (pos n) = if ltb n 1 then 1 else n
at_least_one (negsuc n) = 1

unfoldable pub new_session : Bytes → ℤ → Session
new_session id slot_count = record {
  id = id;
  slots = replicate (at_least_one slot_count) (record { seq = 1; in_use = false });
  highest = 0;
  free = at_least_one slot_count;
}

pub record SlotLease : Type 0 where
  pub slot_id : ℕ
  pub seq : ℕ
  pub highest : ℕ
  pub released : Bool

-- `<-s.free`, which waits while there is no token.
unfoldable pub take_token : Session → Option Session
take_token s = elim s.free [ zero ↦ none | suc n ↦ some (record s { free = n }) ]

-- `s.free <- struct{}{}`
unfoldable pub put_token : Session → Session
put_token s = record s { free = s.free + 1 }

-- The first slot of the loop that is not in use.
unfoldable pub find_free : List Slot → Option (ℕ × Slot)
find_free [] = none
find_free (s ∷ slots) =
    if s.in_use
    then elim (find_free slots) [ none ↦ none | some (i, t) ↦ some (suc i, t) ]
    else some (0, s)

-- The part of AcquireSlot behind the mutex. Without a free slot the token goes back.
unfoldable pub claim_slot : Session → Option SlotLease × Session
claim_slot s = elim (find_free s.slots) [
  | none ↦ (none, put_token s)
  | some (i, t) ↦
      let slot_id = i % 2 ^ 32 in
      let highest = if ltb s.highest slot_id then slot_id else s.highest in
      (
        some (record { slot_id = slot_id; seq = t.seq; highest = highest; released = false }),
        record s { slots = set s.slots i (record t { in_use = true }); highest = highest },
      )
]

-- What release does to the slot. A slot out of range panics in the program; it stays as it is here.
unfoldable pub freed : Bool → ℕ → List Slot → List Slot
freed advance slot_id slots = elim (get_elem? slots slot_id) [
  | none ↦ slots
  | some t ↦
      set slots slot_id
        (record { seq = if advance then (t.seq + 1) % 2 ^ 32 else t.seq; in_use = false })
]

-- release, up to the mutex's unlock. The flag is false where the lease was released before; no token
-- is sent then.
unfoldable pub release_slot : Bool → SlotLease → Session → Bool × SlotLease × Session
release_slot advance l s =
    if l.released
    then (false, l, s)
    else (true, record l { released = true }, record s { slots = freed advance l.slot_id s.slots })

-- `Done()` is `release true` and `Retry()` is `release false`, run without interruption.
unfoldable pub release : Bool → SlotLease → Session → SlotLease × Session
release advance l s =
    let (first, l', s') = release_slot advance l s in (l', if first then put_token s' else s')

-- The session with the goroutines that are at work on it: `claiming` hold a token and have not
-- reached the mutex yet, `leases` are handed out and not released, and `returning` have released a
-- slot and have not sent its token yet.
pub record Table : Type 0 where
  pub session : Session
  pub claiming : ℕ
  pub leases : List SlotLease
  pub returning : ℕ

-- What the goroutines can do next, in any order.
pub data Step : Table → Table → Type 0 where
  take :
      (t : Table) (s : Session)
      → take_token t.session ≡ some s
      → Step t (record t { session = s; claiming = t.claiming + 1 })
  claim :
      (t : Table) (n : ℕ) (l : SlotLease) (s : Session)
      → t.claiming ≡ suc n
      → claim_slot t.session ≡ (some l, s)
      → Step t (record t { session = s; claiming = n; leases = l ∷ t.leases })
  give_up :
      (t : Table) (n : ℕ) (s : Session)
      → t.claiming ≡ suc n
      → claim_slot t.session ≡ (none, s)
      → Step t (record t { session = s; claiming = n })
  release_ :
      (t : Table) (advance : Bool) (front : List SlotLease) (l : SlotLease) (back : List SlotLease)
      (l' : SlotLease) (s : Session)
      → t.leases ≡ front ++ (l ∷ back)
      → release_slot advance l t.session ≡ (true, l', s)
      → Step t (record t { session = s; leases = front ++ back; returning = t.returning + 1 })
  give_back :
      (t : Table) (n : ℕ)
      → t.returning ≡ suc n
      → Step t (record t { session = put_token t.session; returning = n })

abbrev pub new_table : Bytes → ℤ → Table
new_table id slot_count = record {
  session = new_session id slot_count;
  claiming = 0;
  leases = [];
  returning = 0;
}

-- Tables that any number of goroutines can bring about.
pub data Reachable (id : Bytes) (slot_count : ℤ) : Table → Type 0 where
  start : Reachable id slot_count (new_table id slot_count)
  step : {t t' : Table} → Reachable id slot_count t → Step t t' → Reachable id slot_count t'
