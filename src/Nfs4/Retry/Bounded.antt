-- ===== src/Nfs4/Retry/Bounded.antt =====
-- How often the retrying caller calls, and what it returns.
use go_nfs_client.Prelude.{
  if◌then◌else◌, ℕ, zero, suc, ◌+◌, ◌≤◌, ◌<◌, ◌≡◌, ◌≢◌, refl, true, false, Bool-cases, Option-cases,
  inl, inr, ◌⊎◌, Option, some, none, List, ◌==◌, arith,
}
use go_nfs_client.Prelude.Int.{ℤ, pos, negsuc}
use go_nfs_client.Nfs4.Types.{nfs4err_delay, nfs4err_grace}
use go_nfs_client.Nfs4.Compound.{Compound, CompoundResult, Res}
use go_nfs_client.Nfs4.Caller.{Answer, Caller}
use go_nfs_client.Nfs4.Retry.{
  default_retry_max_attempts, RetryConfig, with_defaults, retriable, is_retriable_status,
  next_delay, exhausted, retry_loop, retry_call, attempts_of, not_positive,
}

-- A caller that counts its calls.
abbrev pub counted : {S W : Type 0} → Caller S W → Caller S (ℕ × W)
counted base c results s w = let (a, s', w') = base c results s w.1 in (a, s', (w.0 + 1, w'))

abbrev pub with_count : {A W : Type 0} → (ℤ → W → A × W) → ℤ → ℕ × W → A × (ℕ × W)
with_count sleep d w = let (e, w') = sleep d w.1 in (e, (w.0, w'))

exhausted-none : (a : Answer) → (exhausted a).res ≡ none
unfolding exhausted
exhausted-none a = elim (Option-cases a.err) [
  | inr (y, e) ↦ ground arith
  | inl e ↦ elim (Option-cases a.res) [ inl e' ↦ ground arith | inr (q, e') ↦ ground arith ]
]

module _ {S W : Type 0} (base : Caller S W) (ctx_err : W → Option ℕ) (sleep : ℤ → W → Option ℕ × W)
    (cfg : RetryConfig) where
  -- For any count of the calls that the world keeps.
  loop-le :
      (calls : W → ℕ)
      → ((c : Compound) (results : List (Res S)) (s : S) (w : W)
          → calls (base c results s w).2 ≤ calls w + 1)
      → ((d : ℤ) (w : W) → calls (sleep d w).1 ≡ calls w)
      → (n : ℕ) (delay : ℤ) (last : Answer) (c : Compound) (results : List (Res S)) (s : S) (w : W)
      → calls (retry_loop base ctx_err sleep cfg n delay last c results s w).2 ≤ calls w + n
  unfolding retry_loop
  loop-le calls hb hs zero delay last c results s w = omega arith
  loop-le calls hb hs (suc n) delay last c results s w =
      let a = base c results s w in
      let z = sleep delay a.2 in
      elim (Option-cases (ctx_err w)) [
        | inr (x, e) ↦ elim (Option-cases last.err) [
          | inl e' ↦ ground arith
          | inr (y, e') ↦ ground arith
        ]
        | inl e ↦ elim (Bool-cases (retriable a.0)) [
          | inr r ↦ ground (arith, hb c results s w)
          | inl r ↦ elim (Bool-cases (n == 0)) [
            | inl q ↦ ground (arith, hb c results s w)
            | inr q ↦ elim (Option-cases z.0) [
              | inr (x, e') ↦ ground (arith, hb c results s w, hs delay a.2)
              | inl e' ↦
                  (ground (
                    arith,
                    hb c results s w,
                    hs delay a.2,
                    loop-le calls hb hs n (next_delay cfg delay) a.0 c results a.1 z.1,
                  ))
            ]
          ]
        ]
      ]

  -- An answer that the loop hands on as a success is not one to retry.
  loop-not_retriable :
      (n : ℕ) (delay : ℤ) (last : Answer) (c : Compound) (results : List (Res S)) (s : S) (w : W)
      (r : CompoundResult)
      → ((retry_loop base ctx_err sleep cfg n delay last c results s w).0).res ≡ some r
      → is_retriable_status r.status ≡ false
  unfolding retry_loop retriable
  loop-not_retriable zero delay last c results s w r h =
      absurd (ground (arith, exhausted-none last))
  loop-not_retriable (suc n) delay last c results s w r h =
      let a = base c results s w in
      let z = sleep delay a.2 in
      elim (Option-cases (ctx_err w)) [
        | inr (x, e) ↦ elim (Option-cases last.err) [
          | inl e' ↦ absurd (ground arith)
          | inr (y, e') ↦ absurd (ground arith)
        ]
        | inl e ↦ elim (Bool-cases (retriable a.0)) [
          | inr t ↦ ground arith
          | inl t ↦ elim (Bool-cases (n == 0)) [
            | inl q ↦ absurd (ground (arith, exhausted-none a.0))
            | inr q ↦ elim (Option-cases z.0) [
              | inr (x, e') ↦ absurd (ground arith)
              | inl e' ↦
                  loop-not_retriable n (next_delay cfg delay) a.0 c results a.1 z.1 r (ground arith)
            ]
          ]
        ]
      ]

-- An answer with a reply whose status is DELAY or GRACE.
abbrev pub Busy : Answer → Type 0
Busy a =
    (r : CompoundResult) × (a.res ≡ some r)
    × ((r.status ≡ nfs4err_delay) ⊎ (r.status ≡ nfs4err_grace))

Busy-retriable : (a : Answer) → Busy a → retriable a ≡ true
unfolding retriable is_retriable_status
Busy-retriable a (r, e, inl h) = ground (arith, e, h)
Busy-retriable a (r, e, inr h) = ground (arith, e, h)

module _ {S W : Type 0} (base : Caller S W) (ctx_err : W → Option ℕ) (sleep : ℤ → W → Option ℕ × W)
    (cfg : RetryConfig) where
  -- For a server that is always busy, in a context that lasts.
  loop-eq :
      (calls : W → ℕ)
      → ((w : W) → ctx_err w ≡ none)
      → ((c : Compound) (results : List (Res S)) (s : S) (w : W)
          → (retriable (base c results s w).0 ≡ true)
            × (calls (base c results s w).2 ≡ calls w + 1))
      → ((d : ℤ) (w : W) → ((sleep d w).0 ≡ none) × (calls (sleep d w).1 ≡ calls w))
      → (n : ℕ) (delay : ℤ) (last : Answer) (c : Compound) (results : List (Res S)) (s : S) (w : W)
      → calls (retry_loop base ctx_err sleep cfg n delay last c results s w).2 ≡ calls w + n
  unfolding retry_loop
  loop-eq calls hc hb hs zero delay last c results s w = omega arith
  loop-eq calls hc hb hs (suc n) delay last c results s w =
      let a = base c results s w in
      let z = sleep delay a.2 in
      let (busy, one) = hb c results s w in
      let (slept, same) = hs delay a.2 in
      let ctx = hc w in
      elim (Bool-cases (n == 0)) [
        | inl q ↦ ground (arith, ctx, busy, one)
        | inr q ↦
            let rest = loop-eq calls hc hb hs n (next_delay cfg delay) a.0 c results a.1 z.1 in
            ground (arith, ctx, busy, slept, one, same, rest)
      ]

-- Defaults leave at least one attempt.
pub some_attempt : (cfg : RetryConfig) → 0 < attempts_of (with_defaults cfg).max_attempts
unfolding with_defaults
some_attempt cfg = go cfg.max_attempts
  where
    go : (n : ℤ) → 0 < attempts_of (if not_positive n then pos default_retry_max_attempts else n)
    go (negsuc n) = omega arith
    go (pos n) = ground arith

-- How many attempts a configuration allows: the number that it states, or ten where that is not
-- positive.
unfoldable pub allowed : ℤ → ℕ
allowed (pos zero) = 10
allowed (pos (suc n)) = suc n
allowed (negsuc n) = 10

attempts-allowed :
    (cfg : RetryConfig) → attempts_of (with_defaults cfg).max_attempts ≡ allowed cfg.max_attempts
unfolding with_defaults allowed
attempts-allowed cfg = go cfg.max_attempts
  where
    go :
        (n : ℤ)
        → attempts_of (if not_positive n then pos default_retry_max_attempts else n) ≡ allowed n
    go (negsuc n) = refl
    go (pos zero) = refl
    go (pos (suc n)) = ground arith

module _ {S W : Type 0} (base : Caller S W) (ctx_err : W → Option ℕ) (sleep : ℤ → W → Option ℕ × W)
    (cfg : RetryConfig) (c : Compound) (results : List (Res S)) (s : S) where
  -- The base caller is called at most as often as the configuration's MaxAttempts says, and at most ten
  -- times where MaxAttempts is not positive, whatever the server answers and however the context ends.
  pub retry_call-calls-le :
      (w : W) (k : ℕ)
      → (retry_call (counted base) (λ v. ctx_err v.1) (with_count sleep) cfg c results s (k, w)).2.0
        ≤ k + allowed cfg.max_attempts
  unfolding retry_call
  retry_call-calls-le w k = rw (← attempts-allowed cfg) (
      loop-le (counted base) (λ v. ctx_err v.1) (with_count sleep) (with_defaults cfg) (λ v. v.0)
        (λ c' results' s' v. omega arith) (λ d v. refl) _ _ _ c results s (k, w))

  -- Where the base caller always answers DELAY or GRACE, the context is never done and every sleep runs
  -- to its end, the base caller is called exactly as often as MaxAttempts says, or ten times where that is
  -- not positive.
  pub retry_call-calls-eq :
      (w : W) (k : ℕ)
      → ((v : W) → ctx_err v ≡ none)
      → ((c' : Compound) (results' : List (Res S)) (s' : S) (v : W)
          → Busy (base c' results' s' v).0)
      → ((d : ℤ) (v : W) → (sleep d v).0 ≡ none)
      → (retry_call (counted base) (λ v. ctx_err v.1) (with_count sleep) cfg c results s (k, w)).2.0
        ≡ k + allowed cfg.max_attempts
  unfolding retry_call
  retry_call-calls-eq w k hc hb hs = rw (← attempts-allowed cfg) (
      loop-eq (counted base) (λ v. ctx_err v.1) (with_count sleep) (with_defaults cfg) (λ v. v.0)
        (λ v. hc v.1) (λ c' results' s' v. (Busy-retriable _ (hb c' results' s' v.1), refl))
        (λ d v. (hs d v.1, refl)) _ _ _ c results s (k, w))

  -- A result that the caller gets never has the status DELAY or GRACE.
  pub retry_call-not_retriable :
      (w : W) (r : CompoundResult)
      → ((retry_call base ctx_err sleep cfg c results s w).0).res ≡ some r
      → (r.status ≢ nfs4err_delay) × (r.status ≢ nfs4err_grace)
  unfolding retry_call is_retriable_status
  retry_call-not_retriable w r h =
      let e = loop-not_retriable base ctx_err sleep (with_defaults cfg) _ _ _ c results s w r h in
      ((λ p. ground arith), (λ p. ground arith))

  -- Under a context that is not done, an answer that need not be retried is handed on as it is, after
  -- one call.
  pub retry_call-base :
      (w : W)
      → ctx_err w ≡ none
      → retriable (base c results s w).0 ≡ false
      → retry_call base ctx_err sleep cfg c results s w ≡ base c results s w
  unfolding retry_call retry_loop
  retry_call-base w e r = first (attempts_of (with_defaults cfg).max_attempts) (some_attempt cfg)
    where
      first :
          (n : ℕ)
          → 0 < n
          → retry_loop base ctx_err sleep
              (with_defaults cfg)
              n
              (with_defaults cfg).initial
              (record { res = none; err = none })
              c
              results
              s
              w
            ≡ base c results s w
      first zero h = absurd (omega arith)
      first (suc n) h = ground arith
