-- ===== src/Nfs4/Conn/Panics.antt =====
-- Methods of a connection that do not call Err on a nil result, and how they compose.
pub mod Methods
pub mod Mounts
pub mod All
use go_nfs_client.Prelude.{
  ℕ, ◌≡◌, ◌≢◌, refl, Bool, true, false, Bool-cases, Option-cases, ◌⊎◌, inl, inr, Option, some, none,
  List, [], ◌∷◌, arith, ◌==◌, if◌then◌else◌,
}
use go_nfs_client.Xdr.Io.{Bytes}
use go_nfs_client.Nfs4.Types.{Bitmap, Stateid}
use go_nfs_client.Nfs4.Args.{CreateArgs}
use go_nfs_client.Nfs4.Compound.{Compound, CompoundResult, Res}
use go_nfs_client.Nfs4.Caller.{CallError, status_err}
use go_nfs_client.Nfs4.Results.{GetfhRes, OpenRes, needs_confirm}
use go_nfs_client.Nfs4.Conn.Stack.{World, Environment, call_compound}
use go_nfs_client.Nfs4.Conn.Action.{
  Conn, Result, ok, err, panicked, Action, pure, modify, ◌>>=◌, check, check_result, call,
}
use go_nfs_client.Nfs4.Conn.Speaks.{Decodes, call_compound-Speaks}

-- A method that never panics.
pub record Safe {W A : Type 0} (m : Action W A) : Type 0 where
  pub never : (c : Conn) (w : World W) → (m c w).0 ≢ panicked

Result-cases :
    {A : Type 0} (r : Result A)
    → r ≢ panicked
    → ((a : A) × (r ≡ ok a)) ⊎ ((e : CallError) × (r ≡ err e))
Result-cases (ok a) h = inl (a, refl)
Result-cases (err e) h = inr (e, refl)
Result-cases panicked h = absurd (h refl)

module _ {W A B : Type 0} where
  pub bind-Safe :
      (m : Action W A) (f : A → Action W B) → Safe m → ((a : A) → Safe (f a)) → Safe (m >>= f)
  bind-Safe m f hm hf = record {
    never = λ c w. elim (Result-cases (m c w).0 (hm.never c w)) [
      | inl (a, e) ↦ ground (arith, e, (hf a).never (m c w).1 (m c w).2)
      | inr (x, e) ↦ ground (arith, e)
    ];
  }

pub pure-Safe : {W A : Type 0} (a : A) → Safe {W = W} (pure a)
pure-Safe a = record { never = λ c w p. ground arith }

pub check-Safe : {W : Type 0} (s : ℕ) → Safe {W = W} (check s)
unfolding check
check-Safe s = record {
  never = λ c w p. elim (Option-cases (status_err s)) [
    | inl e ↦ ground arith
    | inr (x, e) ↦ ground arith
  ];
}

pub check_result-Safe : {W : Type 0} (r : CompoundResult) → Safe {W = W} (check_result (some r))
unfolding check_result
check_result-Safe r = record { never = (check-Safe r.status).never }

module _ {W : Type 0} (env : Environment W) (h : Decodes env) where
  -- A call's result is there for the rest of the method.
  pub call-Safe :
      {S B : Type 0} (comp : Conn → Compound) (results : List (Res S)) (s : S)
      (f : Option CompoundResult × S → Action W B)
      → ((r : CompoundResult) (t : S) → Safe (f (some r, t)))
      → Safe (call env comp results s >>= f)
  unfolding call
  call-Safe {S} comp results s f hf = record {
    never = λ c w p.
        let a = call_compound env c.caller S (comp c) results s w in
        let speaks = call_compound-Speaks env h c.caller S (comp c) results s w in
        elim (Option-cases a.0.err) [
          | inr (x, e) ↦ ground (arith, e)
          | inl e ↦ elim (Option-cases a.0.res) [
            | inl e' ↦ absurd (speaks e e')
            | inr (r, e') ↦ ground (arith, e, e', (hf r a.1).never c a.2)
          ]
        ];
  }

  -- A method that is one call: it returns a part of its results, or nothing.
  pub value-Safe :
      {S A : Type 0} (comp : Conn → Compound) (results : List (Res S)) (s : S) (status : S → ℕ)
      (value : S → A)
      → Safe {W = W} (
          call env comp results s >>= λ x.
          check_result x.0 >>= λ _. check (status x.1) >>= λ _. pure (value x.1))
  value-Safe comp results s status value =
      call-Safe comp results s
        (λ x. check_result x.0 >>= λ _. check (status x.1) >>= λ _. pure (value x.1))
        (λ r t.
          bind-Safe (check_result (some r)) (λ _. check (status t) >>= λ _. pure (value t))
            (check_result-Safe r)
            (λ _.
              bind-Safe (check (status t)) (λ _. pure (value t)) (check-Safe (status t))
                (λ _. pure-Safe (value t))))

  pub status-Safe :
      {S : Type 0} (comp : Conn → Compound) (results : List (Res S)) (s : S) (status : S → ℕ)
      → Safe {W = W} (call env comp results s >>= λ x. check_result x.0 >>= λ _. check (status x.1))
  status-Safe comp results s status =
      call-Safe comp results s (λ x. check_result x.0 >>= λ _. check (status x.1))
        (λ r t.
          bind-Safe (check_result (some r)) (λ _. check (status t)) (check_result-Safe r)
            (λ _. check-Safe (status t)))

  pub update-Safe :
      {S : Type 0} (comp : Conn → Compound) (results : List (Res S)) (s : S) (status : S → ℕ)
      (f : S → Action W (Unit {0}))
      → ((t : S) → Safe (f t))
      → Safe {W = W} (call env comp results s >>= λ x. check (status x.1) >>= λ _. f x.1)
  update-Safe comp results s status f hf =
      call-Safe comp results s (λ x. check (status x.1) >>= λ _. f x.1)
        (λ r t. bind-Safe (check (status t)) (λ _. f t) (check-Safe (status t)) (λ _. hf t))

  pub only_status-Safe :
      {S : Type 0} (comp : Conn → Compound) (results : List (Res S)) (s : S) (status : S → ℕ)
      → Safe {W = W} (call env comp results s >>= λ x. check (status x.1))
  only_status-Safe comp results s status =
      call-Safe comp results s (λ x. check (status x.1)) (λ r t. check-Safe (status t))

pub modify-Safe : {W : Type 0} (f : Conn → Conn) → Safe {W = W} (modify f)
modify-Safe f = record { never = λ c w p. ground arith }
