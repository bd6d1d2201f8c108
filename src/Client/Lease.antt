-- ===== src/Client/Lease.antt =====
-- client/lease.go: the stateids that a client holds, and recovery when the server has lost them.
pub mod Table
use go_nfs_client.Prelude.{
  ℕ, ◌+◌, ◌-◌, ◌*◌, ◌/◌, ◌%◌, ◌^◌, ltb, Bool, true, false, ◌||◌, Option, some, none, List, [], ◌∷◌,
  map, if◌then◌else◌, ◌==◌,
}
use go_nfs_client.Prelude.Int.{ℤ, pos, negsuc, to_pattern, of_pattern}
use go_nfs_client.Xdr.Io.{Bytes}
use go_nfs_client.Nfs4.Types.{Stateid, new_stateid}
use go_nfs_client.Nfs4.Caller.{CallError, status_error, other_error}

abbrev pub nfs4err_expired : ℕ
nfs4err_expired = 10011

abbrev pub nfs4err_stale_clientid : ℕ
nfs4err_stale_clientid = 10022

abbrev pub nfs4err_stale_stateid : ℕ
nfs4err_stale_stateid = 10023

abbrev pub nfs4err_bad_stateid : ℕ
nfs4err_bad_stateid = 10025

pub record TrackedStateid : Type 0 where
  pub key : Bytes
  pub sid : Stateid

-- The map from handles is an association list; its order stands for none.
pub record LeaseManager : Type 0 where
  pub next_h : ℕ
  pub stateids : List (ℕ × TrackedStateid)

abbrev pub new_lease_manager : LeaseManager
new_lease_manager = record { next_h = 0; stateids = [] }

-- `lm.stateids[h]`, with the comma and ok.
unfoldable pub find : ℕ → List (ℕ × TrackedStateid) → Option TrackedStateid
find h [] = none
find h (e ∷ entries) = if h == e.0 then some e.1 else find h entries

-- `delete(lm.stateids, h)`
unfoldable pub remove : ℕ → List (ℕ × TrackedStateid) → List (ℕ × TrackedStateid)
remove h [] = []
remove h (e ∷ entries) = if h == e.0 then remove h entries else e ∷ remove h entries

-- `lm.stateids[h] = t`
unfoldable pub assign : ℕ → TrackedStateid → List (ℕ × TrackedStateid) → List (ℕ × TrackedStateid)
assign h t entries = (h, t) ∷ remove h entries

unfoldable pub track_stateid : Bytes → Stateid → LeaseManager → ℕ × LeaseManager
track_stateid key sid lm =
    let h = (lm.next_h + 1) % 2 ^ 64 in
    (h, record { next_h = h; stateids = assign h (record { key = key; sid = sid }) lm.stateids })

-- A handle that is not tracked has the zero stateid.
unfoldable pub stateid : LeaseManager → ℕ → Stateid
stateid lm h = elim (find h lm.stateids) [ none ↦ new_stateid | some t ↦ t.sid ]

unfoldable pub reissue_stateid : ℕ → Stateid → LeaseManager → LeaseManager
reissue_stateid h sid lm = elim (find h lm.stateids) [
  | none ↦ lm
  | some t ↦ record lm { stateids = assign h (record t { sid = sid }) lm.stateids }
]

unfoldable pub forget_stateid : ℕ → LeaseManager → LeaseManager
forget_stateid h lm = record lm { stateids = remove h lm.stateids }

unfoldable pub tracked_keys : LeaseManager → List Bytes
tracked_keys lm = map (λ (e : ℕ × TrackedStateid). e.1.key) lm.stateids

unfoldable pub is_client_state_lost : CallError → Bool
is_client_state_lost (other_error n) = false
is_client_state_lost (status_error s) =
    (s == nfs4err_stale_clientid)
    || ((s == nfs4err_stale_stateid) || ((s == nfs4err_bad_stateid) || (s == nfs4err_expired)))

-- `W` is all that `fn` and `recover` work on.
unfoldable pub with_retry :
    {W : Type 0}
    → (W → Option CallError × W)
    → (W → Option CallError × W)
    → W
    → Option CallError × W
with_retry recover fn w =
    let (e, w₁) = fn w in
    elim e [
      | none ↦ (none, w₁)
      | some x ↦ elim (is_client_state_lost x) [
        | false ↦ (some x, w₁)
        | true ↦ let (r, w₂) = recover w₁ in elim r [ some y ↦ (some y, w₂) | none ↦ fn w₂ ]
      ]
    ]

-- What the loop does when the clock fires.
unfoldable pub renew_tick :
    {W : Type 0} → (W → Option CallError × W) → (W → Option CallError × W) → W → W
renew_tick recover renew w =
    let (e, w₁) = renew w in
    elim e [ none ↦ w₁ | some x ↦ if is_client_state_lost x then (recover w₁).1 else w₁ ]

-- A duration, in nanoseconds; NewLeaseManager replaces one that is not positive by 90 seconds.
unfoldable pub lease_period : ℤ → ℤ
lease_period (negsuc n) = pos 90000000000
lease_period (pos n) = if n == 0 then pos 90000000000 else pos n

-- `a / 3` on int64, which rounds toward zero.
abbrev pub third : ℤ → ℤ
third (pos n) = pos (n / 3)
third (negsuc n) = if ltb n 2 then pos 0 else negsuc ((n + 1) / 3 - 1)

-- renewInterval; the product wraps around.
unfoldable pub renew_interval : ℤ → ℤ
renew_interval period =
    third (of_pattern (2 ^ 63) (2 ^ 64) (to_pattern (2 ^ 64) period * 2 % 2 ^ 64))

-- What the loop's select receives, in the order in which it does.
pub data Event : Type 0 where
  stopped fired : Event

-- The loop, and whether it has ended.
unfoldable pub loop :
    {W : Type 0}
    → (W → Option CallError × W)
    → (W → Option CallError × W)
    → List Event
    → W
    → Bool × W
loop recover renew [] w = (false, w)
loop recover renew (stopped ∷ events) w = (true, w)
loop recover renew (fired ∷ events) w = loop recover renew events (renew_tick recover renew w)
