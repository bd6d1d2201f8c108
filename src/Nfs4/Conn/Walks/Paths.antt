-- ===== src/Nfs4/Conn/Walks/Paths.antt =====
-- LookupPath against a walk down the server's tree.
use go_nfs_client.Prelude.{
  ℕ, ◌≡◌, ◌≢◌, refl, ◌∙◌, Bool-cases, ◌⊎◌, inl, inr, some, List, [], ◌∷◌, arith, if◌then◌else◌,
}
use go_nfs_client.Xdr.Io.{Bytes}
use go_nfs_client.Nfs4.Types.{nfs4_ok, U32, Small}
use go_nfs_client.Nfs4.Compound.Replies.{Resop}
use go_nfs_client.Nfs4.Caller.{status_error}
use go_nfs_client.Nfs4.Conn.Stack.{World, Environment}
use go_nfs_client.Nfs4.Conn.Action.{Conn, Result, ok, err}
use go_nfs_client.Nfs4.Conn.Reading.{lookup, is_skipped, lookup_components, lookup_path}
use go_nfs_client.Nfs4.Conn.Carried.{Carried}
use go_nfs_client.Nfs4.Conn.Walks.{
  found_resops, missing_resops, lookup_request, lookup_found, lookup_missing,
}

-- What a directory has under a name: a handle, or the status that LOOKUP fails with.
pub data Entry : Type 0 where
  found : Bytes → Entry
  missing : ℕ → Entry

abbrev pub FitsEntry : Entry → Type 0
FitsEntry (found fh) = Small fh
FitsEntry (missing status) = U32 status × (status ≢ nfs4_ok)

abbrev pub entry_status : Entry → ℕ
entry_status (found fh) = nfs4_ok
entry_status (missing status) = status

abbrev pub entry_resops : Entry → List Resop
entry_resops (found fh) = found_resops fh
entry_resops (missing status) = missing_resops status

abbrev pub entry_result : Entry → Result Bytes
entry_result (found fh) = ok fh
entry_result (missing status) = err (status_error status)

-- A server that holds the tree `tree`, as the connection reaches it while `Good` holds.
pub record Serves {W : Type 0} (env : Environment W) (c : Conn) (tree : Bytes → Bytes → Entry)
    (Good : World W → Type 0) : Type 1 where
  pub fits : (dir name : Bytes) → FitsEntry (tree dir name)
  pub after : Bytes → Bytes → World W → World W
  pub serves :
      (dir name : Bytes) (w : World W)
      → Good w
      → Carried env c.caller
          (lookup_request c dir name)
          w
          (entry_status (tree dir name))
          (entry_resops (tree dir name))
          (after dir name w)
  pub stays : (dir name : Bytes) (w : World W) → Good w → Good (after dir name w)

-- The names of a path: its components without "" and ".".
unfoldable pub names : List Bytes → List Bytes
names [] = []
names (comp ∷ components) = if is_skipped comp then names components else comp ∷ names components

-- The walk from a directory down the tree, up to the first name that is missing.
unfoldable pub walk : (Bytes → Bytes → Entry) → Bytes → List Bytes → Result Bytes
walk tree cur [] = ok cur
walk tree cur (name ∷ path) = elim (tree cur name) [
  | found fh ↦ walk tree fh path
  | missing status ↦ err (status_error status)
]

Entry-cases : (t : Entry) → ((fh : Bytes) × (t ≡ found fh)) ⊎ ((status : ℕ) × (t ≡ missing status))
Entry-cases (found fh) = inl (fh, refl)
Entry-cases (missing status) = inr (status, refl)

module _ {W : Type 0} (env : Environment W) (c : Conn) (tree : Bytes → Bytes → Entry)
    (Good : World W → Type 0) (srv : Serves env c tree Good) where
  lookup-tree :
      (dir name : Bytes) (w : World W)
      → Good w
      → lookup env dir name c w ≡ (entry_result (tree dir name), c, srv.after dir name w)
  lookup-tree dir name w g = split (tree dir name) (srv.fits dir name) (srv.serves dir name w g)
    where
      split :
          (t : Entry)
          → FitsEntry t
          → Carried env c.caller
              (lookup_request c dir name)
              w
              (entry_status t)
              (entry_resops t)
              (srv.after dir name w)
          → lookup env dir name c w ≡ (entry_result t, c, srv.after dir name w)
      split (found fh) f h = lookup_found env dir name fh c w _ f h
      split (missing status) (f, n) h = lookup_missing env dir name status c w _ f n h

  -- The worlds that a walk leaves behind.
  walk_after : Bytes → List Bytes → World W → World W
  walk_after cur [] w = w
  walk_after cur (name ∷ path) w = elim (tree cur name) [
    | found fh ↦ walk_after fh path (srv.after cur name w)
    | missing status ↦ srv.after cur name w
  ]

  lookup_components-walk :
      (components : List Bytes) (cur : Bytes) (w : World W)
      → Good w
      → lookup_components env cur components c w
        ≡ (walk tree cur (names components), c, walk_after cur (names components) w)
  unfolding lookup_components walk names walk_after
  lookup_components-walk [] cur w g = refl
  lookup_components-walk (comp ∷ components) cur w g = elim (Bool-cases (is_skipped comp)) [
    | inl e ↦ ground (arith, e, lookup_components-walk components cur w g)
    | inr e ↦
        let step = lookup-tree cur comp w g in
        elim (Entry-cases (tree cur comp)) [
          | inl (fh, t) ↦ ground (
            arith,
            e,
            t,
            step,
            lookup_components-walk components fh (srv.after cur comp w) (srv.stays cur comp w g),
          )
          | inr (status, t) ↦ ground (arith, e, t, step)
        ]
  ]

  walk_after-Good :
      (path : List Bytes) (cur : Bytes) (w : World W) → Good w → Good (walk_after cur path w)
  unfolding walk_after
  walk_after-Good [] cur w g = g
  walk_after-Good (name ∷ path) cur w g = elim (Entry-cases (tree cur name)) [
    | inl (fh, t) ↦
        rw (walk_after, t) (walk_after-Good path fh (srv.after cur name w) (srv.stays cur name w g))
    | inr (status, t) ↦ rw (walk_after, t) (srv.stays cur name w g)
  ]

  mounted-lookup_path :
      (components : List Bytes) (root : Bytes) (w : World W)
      → c.root_fh ≡ some root
      → lookup_path env components c w ≡ lookup_components env root components c w
  unfolding lookup_path
  mounted-lookup_path components root w e = ground (arith, e)

  -- LookupPath on a mounted connection comes to the walk from the root down the tree that the server
  -- holds, along the components that are neither empty nor ".", and to the status of the first name
  -- that is missing; it leaves the connection as it is, if the callers carry up what the server
  -- replies to each LOOKUP.
  pub lookup_path-walk :
      (components : List Bytes) (root : Bytes) (w : World W)
      → Good w
      → c.root_fh ≡ some root
      → let (r, c', w') = lookup_path env components c w in
        (r ≡ walk tree root (names components)) × (c' ≡ c) × Good w'
  lookup_path-walk components root w g e =
      let walked = lookup_components-walk components root w g in
      rw (mounted-lookup_path components root w e ∙ walked)
        (refl, refl, walk_after-Good (names components) root w g)
