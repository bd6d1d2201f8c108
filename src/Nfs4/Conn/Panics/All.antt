-- ===== src/Nfs4/Conn/Panics/All.antt =====
-- No method of a connection calls Err on a nil result: all methods together.
use go_nfs_client.Prelude.{ℕ, ◌≢◌, Bool, List}
use go_nfs_client.Xdr.Io.{Bytes}
use go_nfs_client.Nfs4.Types.{Bitmap, Stateid}
use go_nfs_client.Nfs4.Args.{CreateArgs}
use go_nfs_client.Nfs4.Conn.Stack.{World, Environment}
use go_nfs_client.Nfs4.Conn.Action.{Conn, panicked, Action, pure, ◌>>=◌}
use go_nfs_client.Nfs4.Conn.Bootstrap.{mount}
use go_nfs_client.Nfs4.Conn.Reading.{lookup, get_attr, read, readdir, renew, readlink, lookup_path}
use go_nfs_client.Nfs4.Conn.Writing.{open_file, write, commit, close_file}
use go_nfs_client.Nfs4.Conn.Names.{create, remove, rename, link, set_attr}
use go_nfs_client.Nfs4.Conn.Speaks.{Decodes}
use go_nfs_client.Nfs4.Conn.Panics.{Safe, pure-Safe, bind-Safe}
use go_nfs_client.Nfs4.Conn.Panics.Methods.{
  lookup-Safe, get_attr-Safe, read-Safe, readdir-Safe, readlink-Safe, write-Safe, create-Safe,
  commit-Safe, remove-Safe, rename-Safe, link-Safe, set_attr-Safe, open_file-Safe, close_file-Safe,
}
use go_nfs_client.Nfs4.Conn.Panics.Mounts.{mount-Safe, renew-Safe, lookup_path-Safe}

-- The methods of a connection that report an error.
pub data Method : Type 0 where
  mount_ renew_ : Method
  lookup_ : Bytes → Bytes → Method
  get_attr_ : Bytes → Bitmap → Method
  read_ : Bytes → ℕ → ℕ → Method
  readdir_ : Bytes → ℕ → Bytes → Bitmap → Method
  readlink_ : Bytes → Method
  lookup_path_ : List Bytes → Method
  open_ : Bytes → Bytes → ℕ → Bitmap → Bytes → Bool → Bool → Method
  write_ : Bytes → Stateid → ℕ → Bytes → ℕ → Method
  commit_ : Bytes → ℕ → ℕ → Method
  close_file_ : Bytes → Stateid → Method
  create_ : Bytes → CreateArgs → Method
  remove_ : Bytes → Bytes → Method
  rename_ : Bytes → Bytes → Bytes → Bytes → Method
  link_ : Bytes → Bytes → Bytes → Method
  set_attr_ : Bytes → Stateid → Bitmap → Bytes → Method

-- `m` panics as the method does, and drops what it returns.
abbrev drop : {W A : Type 0} → Action W A → Action W (Unit {0})
drop m = m >>= λ _. pure tt

pub invoke : {W : Type 0} → Environment W → Method → Action W (Unit {0})
invoke env mount_ = mount env
invoke env renew_ = renew env
invoke env (lookup_ dir name) = drop (lookup env dir name)
invoke env (get_attr_ fh mask) = drop (get_attr env fh mask)
invoke env (read_ fh offset count) = drop (read env fh offset count)
invoke env (readdir_ dir cookie verf mask) = drop (readdir env dir cookie verf mask)
invoke env (readlink_ fh) = drop (readlink env fh)
invoke env (lookup_path_ components) = drop (lookup_path env components)
invoke env (open_ dir name share mask vals do_create excl) =
    drop (open_file env dir name share mask vals do_create excl)
invoke env (write_ fh sid offset p stable) = drop (write env fh sid offset p stable)
invoke env (commit_ fh offset count) = commit env fh offset count
invoke env (close_file_ fh sid) = close_file env fh sid
invoke env (create_ dir args) = drop (create env dir args)
invoke env (remove_ dir name) = remove env dir name
invoke env (rename_ src old dst new) = rename env src old dst new
invoke env (link_ src dst name) = link env src dst name
invoke env (set_attr_ fh sid mask vals) = set_attr env fh sid mask vals

drop-Safe : {W A : Type 0} (m : Action W A) → Safe m → Safe (drop m)
drop-Safe m h = bind-Safe m (λ _. pure tt) h (λ _. pure-Safe tt)

invoke-Safe : {W : Type 0} (env : Environment W) → Decodes env → (m : Method) → Safe (invoke env m)
unfolding invoke
invoke-Safe env h mount_ = mount-Safe env h
invoke-Safe env h renew_ = renew-Safe env h
invoke-Safe env h (lookup_ dir name) = drop-Safe (lookup env dir name) (lookup-Safe env h dir name)
invoke-Safe env h (get_attr_ fh mask) =
    drop-Safe (get_attr env fh mask) (get_attr-Safe env h fh mask)
invoke-Safe env h (read_ fh offset count) =
    drop-Safe (read env fh offset count) (read-Safe env h fh offset count)
invoke-Safe env h (readdir_ dir cookie verf mask) =
    drop-Safe (readdir env dir cookie verf mask) (readdir-Safe env h dir cookie verf mask)
invoke-Safe env h (readlink_ fh) = drop-Safe (readlink env fh) (readlink-Safe env h fh)
invoke-Safe env h (lookup_path_ components) =
    drop-Safe (lookup_path env components) (lookup_path-Safe env h components)
invoke-Safe env h (open_ dir name share mask vals do_create excl) =
    drop-Safe (open_file env dir name share mask vals do_create excl)
      (open_file-Safe env h dir name share mask vals do_create excl)
invoke-Safe env h (write_ fh sid offset p stable) =
    drop-Safe (write env fh sid offset p stable) (write-Safe env h fh sid offset p stable)
invoke-Safe env h (commit_ fh offset count) = commit-Safe env h fh offset count
invoke-Safe env h (close_file_ fh sid) = close_file-Safe env h fh sid
invoke-Safe env h (create_ dir args) = drop-Safe (create env dir args) (create-Safe env h dir args)
invoke-Safe env h (remove_ dir name) = remove-Safe env h dir name
invoke-Safe env h (rename_ src old dst new) = rename-Safe env h src old dst new
invoke-Safe env h (link_ src dst name) = link-Safe env h src dst name
invoke-Safe env h (set_attr_ fh sid mask vals) = set_attr-Safe env h fh sid mask vals

-- No method of a connection ever calls Err on a nil *CompoundResult, whatever the callers on top of
-- each other are, if the RPC client decodes the results of each call that it returns without an error.
pub invoke-ne-panicked :
    {W : Type 0} (env : Environment W) (m : Method) (c : Conn) (w : World W)
    → Decodes env
    → (invoke env m c w).0 ≢ panicked
invoke-ne-panicked env m c w h = (invoke-Safe env h m).never c w
