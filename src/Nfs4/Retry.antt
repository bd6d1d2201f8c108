-- ===== src/Nfs4/Retry.antt =====
-- nfs4/retry.go: bounded retries of compounds that the server answers with DELAY or GRACE.
pub mod Bounded
use go_nfs_client.Prelude.{
  ℕ, zero, suc, ◌+◌, ◌-◌, ◌*◌, ◌%◌, ◌^◌, Bool, true, false, ◌||◌, Option, some, none, List,
  if◌then◌else◌, ltb, ◌==◌,
}
use go_nfs_client.Prelude.Int.{ℤ, pos, negsuc, to_pattern, of_pattern}
use go_nfs_client.Nfs4.Types.{nfs4err_delay, nfs4err_grace}
use go_nfs_client.Nfs4.Compound.{Compound, CompoundResult, Res}
use go_nfs_client.Nfs4.Caller.{CallError, other_error, status_err, error_has_status, Answer, Caller}

-- Durations are counted in nanoseconds, as int64.
abbrev pub default_retry_initial : ℕ
default_retry_initial = 10 * 1000000

abbrev pub default_retry_max : ℕ
default_retry_max = 1000 * 1000000

abbrev pub default_retry_max_attempts : ℕ
default_retry_max_attempts = 10

-- The sleeper is a parameter of `retry_call`.
pub record RetryConfig : Type 0 where
  pub initial : ℤ
  pub max_delay : ℤ
  pub max_attempts : ℤ

-- `v <= 0`, and `v < 1`.
abbrev pub not_positive : ℤ → Bool
not_positive (pos n) = n == 0
not_positive (negsuc n) = true

unfoldable pub with_defaults : RetryConfig → RetryConfig
with_defaults cfg = record {
  initial = if not_positive cfg.initial then pos default_retry_initial else cfg.initial;
  max_delay = if not_positive cfg.max_delay then pos default_retry_max else cfg.max_delay;
  max_attempts =
      if not_positive cfg.max_attempts then pos default_retry_max_attempts else cfg.max_attempts;
}

unfoldable pub is_retriable_status : ℕ → Bool
is_retriable_status s = (s == nfs4err_delay) || (s == nfs4err_grace)

unfoldable pub retriable : Answer → Bool
retriable a = (elim a.res [ none ↦ false | some r ↦ is_retriable_status r.status ]) || (elim a.err [
  | none ↦ false
  | some e ↦ error_has_status e nfs4err_delay || error_has_status e nfs4err_grace
])

-- `delay *= 2` on an int64.
abbrev pub doubled : ℤ → ℤ
doubled d = of_pattern (2 ^ 63) (2 ^ 64) (to_pattern (2 ^ 64) d * 2 % 2 ^ 64)

-- `a > b`
abbrev pub greater : ℤ → ℤ → Bool
greater (pos a) (pos b) = ltb b a
greater (pos a) (negsuc b) = true
greater (negsuc a) (pos b) = false
greater (negsuc a) (negsuc b) = ltb a b

unfoldable pub next_delay : RetryConfig → ℤ → ℤ
next_delay cfg delay =
    let twice = doubled delay in if greater twice cfg.max_delay then cfg.max_delay else twice

-- What follows the loop. An answer without a result and without an error is returned as it is.
unfoldable pub exhausted : Answer → Answer
exhausted last = elim last.err [
  | some e ↦ record { res = none; err = some e }
  | none ↦ elim last.res [
    | some r ↦ record { res = none; err = status_err r.status }
    | none ↦ record { res = none; err = none }
  ]
]

-- `ctx_err` is `ctx.Err()` at that time, and `sleep` is `cfg.sleep`; both give an error by its number.
module _ {S W : Type 0} (base : Caller S W) (ctx_err : W → Option ℕ) (sleep : ℤ → W → Option ℕ × W)
    (cfg : RetryConfig) where
  -- The loop, with `attempts` rounds left; `last` is what the round before got.
  unfoldable pub retry_loop : ℕ → ℤ → Answer → Compound → List (Res S) → S → W → Answer × S × W
  retry_loop zero delay last c results s w = (exhausted last, s, w)
  retry_loop (suc attempts) delay last c results s w = elim (ctx_err w) [
    | some n ↦ elim last.err [
      | some e ↦ (record { res = none; err = some e }, s, w)
      | none ↦ (record { res = none; err = some (other_error n) }, s, w)
    ]
    | none ↦
        let (a, s', w') = base c results s w in
        elim (retriable a) [
          | false ↦ (a, s', w')
          | true ↦ elim (attempts == 0) [
            | true ↦ (exhausted a, s', w')
            | false ↦
                let (e, w'') = sleep delay w' in
                elim e [
                  | some n ↦ (record { res = none; err = some (other_error n) }, s', w'')
                  | none ↦ retry_loop attempts (next_delay cfg delay) a c results s' w''
                ]
          ]
        ]
  ]

-- A number of attempts that is not positive never gets here: `cfg` comes from `with_defaults`.
abbrev pub attempts_of : ℤ → ℕ
attempts_of (pos n) = n
attempts_of (negsuc n) = 0

unfoldable pub retry_call :
    {S W : Type 0} → Caller S W → (W → Option ℕ) → (ℤ → W → Option ℕ × W) → RetryConfig → Caller S W
retry_call base ctx_err sleep cfg c results s w =
    let cfg' = with_defaults cfg in
    retry_loop base ctx_err sleep cfg' (attempts_of cfg'.max_attempts) cfg'.initial
      (record { res = none; err = none }) c results s w
