-- ===== src/Client/Lease/Table.antt =====
-- The stateid table as a map from handles.
use go_nfs_client.Prelude.{
  ℕ, ◌+◌, ◌%◌, ◌^◌, ◌≤◌, ◌<◌, ◌≡◌, refl, Bool-cases, Option-cases, inl, inr, Option, some, none,
  List, [], ◌∷◌, if◌then◌else◌, ◌==◌, ==_iff, ==_refl, arith, All,
}
use go_nfs_client.Xdr.Io.{Bytes}
use go_nfs_client.Nfs4.Types.{Stateid}
use go_nfs_client.Client.Lease.{
  TrackedStateid, LeaseManager, find, remove, assign, track_stateid, stateid, reissue_stateid,
  forget_stateid,
}

-- What the table holds at `h`.
abbrev pub at_handle : LeaseManager → ℕ → Option TrackedStateid
at_handle lm h = find h lm.stateids

-- The handles that are in use were all given out before.
abbrev pub GivenOut : LeaseManager → Type 0
GivenOut lm = All (λ (e : ℕ × TrackedStateid). e.0 ≤ lm.next_h) lm.stateids

-- An entry with another stateid, if there is one.
abbrev pub with_sid : Stateid → Option TrackedStateid → Option TrackedStateid
with_sid sid none = none
with_sid sid (some t) = some (record t { sid = sid })

find-remove :
    (j h : ℕ) (entries : List (ℕ × TrackedStateid))
    → find j (remove h entries) ≡ (if j == h then none else find j entries)
unfolding find remove
find-remove j h [] = ground arith
find-remove j h (e ∷ entries) = ground (arith, find-remove j h entries)

find-assign :
    (j h : ℕ) (t : TrackedStateid) (entries : List (ℕ × TrackedStateid))
    → find j (assign h t entries) ≡ (if j == h then some t else find j entries)
unfolding find assign
find-assign j h t entries = ground (arith, find-remove j h entries)

find-none :
    (h n : ℕ) (entries : List (ℕ × TrackedStateid))
    → n < h
    → All (λ (e : ℕ × TrackedStateid). e.0 ≤ n) entries
    → find h entries ≡ none
unfolding find
find-none h n [] lt k = refl
find-none h n (e ∷ entries) lt k = ground (arith, find-none h n entries lt k.1, k.0)

remove-All :
    (h n m : ℕ) (entries : List (ℕ × TrackedStateid))
    → n ≤ m
    → All (λ (e : ℕ × TrackedStateid). e.0 ≤ n) entries
    → All (λ (e : ℕ × TrackedStateid). e.0 ≤ m) (remove h entries)
unfolding remove
remove-All h n m [] le k = tt
remove-All h n m (e ∷ entries) le k = elim (Bool-cases (h == e.0)) [
  | inl p ↦ rw p (remove-All h n m entries le k.1)
  | inr p ↦ rw p (omega (arith, k.0), remove-All h n m entries le k.1)
]

assign-All :
    (h n : ℕ) (t : TrackedStateid) (entries : List (ℕ × TrackedStateid))
    → n ≤ h
    → All (λ (e : ℕ × TrackedStateid). e.0 ≤ n) entries
    → All (λ (e : ℕ × TrackedStateid). e.0 ≤ h) (assign h t entries)
unfolding assign
assign-All h n t entries le k = (omega arith, remove-All h n h entries le k)

reissue_lem :
    (h j : ℕ) (sid : Stateid) (lm : LeaseManager)
    → at_handle (reissue_stateid h sid lm) j
      ≡ (if j == h then with_sid sid (at_handle lm j) else at_handle lm j)
unfolding reissue_stateid
reissue_lem h j sid lm = elim (Option-cases (find h lm.stateids)) [
  | inl e ↦ elim (Bool-cases (j == h)) [
    | inl p ↦ rw ((==_iff j h).0 p, ==_refl h, reissue_stateid, e, e) refl
    | inr p ↦ rw (p, reissue_stateid, e) refl
  ]
  | inr (t, e) ↦
      let f = find-assign j h (record t { sid = sid }) lm.stateids in
      elim (Bool-cases (j == h)) [
        | inl p ↦ ground (arith, f, (==_iff j h).0 p)
        | inr p ↦ ground (arith, f)
      ]
]

-- If fewer than 2^64 - 1 handles were given out and all handles in use were, TrackStateid returns a
-- handle that was free, under which the table then has the key and the stateid; every other handle
-- has what it had, and again all handles in use were given out.
pub track_stateid_lem :
    (key : Bytes) (sid : Stateid) (lm : LeaseManager) (j : ℕ)
    → lm.next_h + 1 < 2 ^ 64
    → GivenOut lm
    → let (h, lm') = track_stateid key sid lm in
      (at_handle lm h ≡ none)
      × (at_handle lm' j
          ≡ (if j == h then some (record { key = key; sid = sid }) else at_handle lm j))
      × (stateid lm' h ≡ sid)
      × GivenOut lm'
unfolding track_stateid stateid
track_stateid_lem key sid lm j small given =
    let m : (lm.next_h + 1) % 2 ^ 64 ≡ lm.next_h + 1 = omega arith in
    let t : TrackedStateid = record { key = key; sid = sid } in
    let there = find-assign (lm.next_h + 1) (lm.next_h + 1) t lm.stateids in
    rw m (
      find-none (lm.next_h + 1) lm.next_h lm.stateids (omega arith) given,
      find-assign j (lm.next_h + 1) t lm.stateids,
      ground (arith, there),
      assign-All (lm.next_h + 1) lm.next_h t lm.stateids (omega arith) given,
    )

-- ReissueStateid gives a handle that is tracked another stateid and changes nothing else; a handle
-- that is not tracked stays untracked. ForgetStateid takes its handle out of the table, and nothing
-- else.
pub reissue_forget_lem :
    (h j : ℕ) (sid : Stateid) (lm : LeaseManager)
    → (at_handle (reissue_stateid h sid lm) j
        ≡ (if j == h then with_sid sid (at_handle lm j) else at_handle lm j))
      × (at_handle (forget_stateid h lm) j ≡ (if j == h then none else at_handle lm j))
unfolding forget_stateid
reissue_forget_lem h j sid lm = (reissue_lem h j sid lm, find-remove j h lm.stateids)
