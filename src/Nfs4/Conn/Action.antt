-- ===== src/Nfs4/Conn/Action.antt =====
-- nfs4/conn.go: the connection's state, and the steps that its methods are made of.
use go_nfs_client.Prelude.{ℕ, Bool, Option, some, none, List, [], ◌∷◌}
use go_nfs_client.Xdr.Io.{Bytes}
use go_nfs_client.Nfs4.Compound.{Compound, CompoundResult, Res, new_compound}
use go_nfs_client.Nfs4.Caller.{CallError, status_err}
use go_nfs_client.Nfs4.Retry.{RetryConfig}
use go_nfs_client.Nfs4.Conn.Stack.{World, CallerStack, retry_caller, Environment, call_compound}

pub record ConnConfig : Type 0 where
  pub client_name : Bytes
  pub minor_version : ℕ
  pub retry : RetryConfig

-- `rpc` says whether the field of that name is set. A nil `root_fh` is `none`, and so is a nil
-- `session`. The mutex is left out: the methods only hold it to read or write fields.
pub record Conn : Type 0 where
  pub caller : CallerStack
  pub cfg : ConnConfig
  pub rpc : Bool
  pub client_id : ℕ
  pub confirm : Bytes
  pub root_fh : Option Bytes
  pub session : Option ℕ
  pub eir_sequence : ℕ
  pub open_seqid : ℕ

-- `panicked`: a method was called on a nil *CompoundResult.
pub data Result (A : Type 0) : Type 0 where
  ok : A → Result A
  err : CallError → Result A
  panicked : Result A

-- A method, on the connection and on all that is around it.
abbrev pub Action : Type 0 → Type 0 → Type 0
Action W A = Conn → World W → Result A × Conn × World W

module _ {W A : Type 0} where
  abbrev pub pure : A → Action W A
  pure a c w = (ok a, c, w)

  abbrev pub raise : CallError → Action W A
  raise e c w = (err e, c, w)

  abbrev pub gets : (Conn → A) → Action W A
  gets f c w = (ok (f c), c, w)

abbrev pub modify : {W : Type 0} → (Conn → Conn) → Action W (Unit {0})
modify f c w = (ok tt, f c, w)

infixl 5 ◌>>=◌ ◌>>◌
abbrev pub ◌>>=◌ : {W A B : Type 0} → Action W A → (A → Action W B) → Action W B
(m >>= f) c w =
    let (r, c', w') = m c w in
    elim r [ ok a ↦ f a c' w' | err e ↦ (err e, c', w') | panicked ↦ (panicked, c', w') ]

abbrev pub ◌>>◌ : {W A B : Type 0} → Action W A → Action W B → Action W B
m >> k = m >>= λ _. k

unfoldable pub new_conn : CallerStack → ConnConfig → Conn
new_conn caller cfg = record {
  caller = retry_caller cfg.retry caller;
  cfg = cfg;
  rpc = Bool.false;
  client_id = 0;
  confirm = 0 ∷ 0 ∷ 0 ∷ 0 ∷ 0 ∷ 0 ∷ 0 ∷ 0 ∷ [];
  root_fh = none;
  session = none;
  eir_sequence = 0;
  open_seqid = 0;
}

-- `if err := status.Err(); err != nil { return err }`
unfoldable pub check : {W : Type 0} → ℕ → Action W (Unit {0})
check status c w = elim (status_err status) [ none ↦ (ok tt, c, w) | some e ↦ (err e, c, w) ]

-- `if err := r.Err(); err != nil { return err }`
unfoldable pub check_result : {W : Type 0} → Option CompoundResult → Action W (Unit {0})
check_result none c w = (panicked, c, w)
check_result (some r) c w = check r.status c w

-- `c.compound()`
unfoldable pub compound : Conn → Compound
compound c = record (new_compound []) { minor_version = c.cfg.minor_version }

-- `r, err := c.caller.CallCompound(ctx, comp, results)`, with the return on its error. `s` is what
-- the results are before the call.
unfoldable pub call :
    {W : Type 0}
    → Environment W
    → {S : Type 0} → (Conn → Compound)
    → List (Res S)
    → S
    → Action W (Option CompoundResult × S)
call env {S} comp results s c w =
    let (a, s', w') = call_compound env c.caller S (comp c) results s w in
    elim a.err [ some e ↦ (err e, c, w') | none ↦ (ok (a.res, s'), c, w') ]
