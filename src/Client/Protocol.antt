-- ===== src/Client/Protocol.antt =====
-- client/fs.go and client/file.go: the interfaces Protocol and RWProtocol, and *nfs4.Conn as one.
use go_nfs_client.Prelude.{ℕ, Bool, some, none, []}
use go_nfs_client.Xdr.Io.{Bytes}
use go_nfs_client.Nfs4.Types.{Bitmap, Stateid}
use go_nfs_client.Nfs4.Results.{ReaddirRes}
use go_nfs_client.Nfs4.Caller.{CallError, other_error}
use go_nfs_client.Nfs4.Conn.Stack.{World, Environment}
use go_nfs_client.Nfs4.Conn.Action.{Conn, Result, ok, err, panicked, Action}
use go_nfs_client.Nfs4.Conn.Reading
use go_nfs_client.Nfs4.Conn.Writing
use go_nfs_client.Nfs4.Conn.Writing.{OpenResult}
use go_nfs_client.Nfs4.Conn.Names

pub data Outcome (A : Type 0) : Type 0 where
  done : A → Outcome A
  failed : CallError → Outcome A

-- The methods on which the file system layer depends. `W` is all that they work on.
pub record RwProtocol (W : Type 0) : Type 0 where
  pub root_fh : W → Bytes
  pub lookup : Bytes → Bytes → W → Outcome Bytes × W
  pub get_attr : Bytes → Bitmap → W → Outcome (Bitmap × Bytes) × W
  pub read : Bytes → ℕ → ℕ → W → Outcome (Bytes × Bool) × W
  pub readdir : Bytes → ℕ → Bytes → Bitmap → W → Outcome ReaddirRes × W
  pub readlink : Bytes → W → Outcome Bytes × W
  pub open_file : Bytes → Bytes → ℕ → Bitmap → Bytes → Bool → Bool → W → Outcome OpenResult × W
  pub write : Bytes → Stateid → ℕ → Bytes → ℕ → W → Outcome (ℕ × ℕ) × W
  pub commit : Bytes → ℕ → ℕ → W → Outcome (Unit {0}) × W
  pub close_file : Bytes → Stateid → W → Outcome (Unit {0}) × W
  pub set_attr : Bytes → Stateid → Bitmap → Bytes → W → Outcome (Unit {0}) × W

-- The error that stands for a panic, which does not happen: `invoke-ne-panicked` of Nfs4.Conn.Panics.All.
abbrev pub nil_result : ℕ
nil_result = 7

abbrev pub outcome_of : {A : Type 0} → Result A → Outcome A
outcome_of (ok a) = done a
outcome_of (err e) = failed e
outcome_of panicked = failed (other_error nil_result)

abbrev pub run : {W A : Type 0} → Action W A → Conn × World W → Outcome A × (Conn × World W)
run m (c, w) = let (r, c', w') = m c w in (outcome_of r, (c', w'))

-- `_ RWProtocol = (*nfs4.Conn)(nil)`. A nil handle is empty.
unfoldable pub conn_protocol : {W : Type 0} → Environment W → RwProtocol (Conn × World W)
conn_protocol env = record {
  root_fh = λ v. elim v.0.root_fh [ none ↦ [] | some fh ↦ fh ];
  lookup = λ dir name. run (Reading.lookup env dir name);
  get_attr = λ fh mask. run (Reading.get_attr env fh mask);
  read = λ fh offset count. run (Reading.read env fh offset count);
  readdir = λ dir cookie verf mask. run (Reading.readdir env dir cookie verf mask);
  readlink = λ fh. run (Reading.readlink env fh);
  open_file = λ dir name share mask vals do_create excl.
      run (Writing.open_file env dir name share mask vals do_create excl);
  write = λ fh sid offset contents stable. run (Writing.write env fh sid offset contents stable);
  commit = λ fh offset count. run (Writing.commit env fh offset count);
  close_file = λ fh sid. run (Writing.close_file env fh sid);
  set_attr = λ fh sid mask vals. run (Names.set_attr env fh sid mask vals);
}
