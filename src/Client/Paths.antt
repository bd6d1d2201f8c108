-- ===== src/Client/Paths.antt =====
-- client/fs.go and client/file.go: names, and their resolution.
use go_nfs_client.Prelude.{
  ℕ, Bool, true, false, not, ◌&&◌, ◌||◌, List, [], ◌∷◌, if◌then◌else◌, ◌==◌,
}
use go_nfs_client.Xdr.Io.{Bytes}
use go_nfs_client.Client.Protocol.{Outcome, done, failed, RwProtocol}

abbrev pub slash : ℕ
slash = 47

-- "."
abbrev pub is_dot : Bytes → Bool
is_dot [] = false
is_dot (b ∷ []) = b == 46
is_dot (b ∷ b' ∷ bs) = false

abbrev pub is_dot_dot : Bytes → Bool
is_dot_dot [] = false
is_dot_dot (b ∷ []) = false
is_dot_dot (b ∷ b' ∷ []) = (b == 46) && (b' == 46)
is_dot_dot (b ∷ b' ∷ b'' ∷ bs) = false

abbrev pub is_nil : {A : Type 0} → List A → Bool
is_nil [] = true
is_nil (b ∷ bs) = false

-- strings.Split(name, "/")
abbrev to_first : ℕ → List Bytes → List Bytes
to_first b [] = (b ∷ []) ∷ []
to_first b (comp ∷ components) = (b ∷ comp) ∷ components

unfoldable pub split : Bytes → List Bytes
split [] = [] ∷ []
split (b ∷ bs) = if b == slash then [] ∷ split bs else to_first b (split bs)

-- fs.ValidPath; `valid_string` is utf8.ValidString.
unfoldable pub are_valid : List Bytes → Bool
are_valid [] = true
are_valid (comp ∷ components) =
    not (is_nil comp) && (not (is_dot comp) && (not (is_dot_dot comp) && are_valid components))

unfoldable pub valid_path : (Bytes → Bool) → Bytes → Bool
valid_path valid_string name = valid_string name && (is_dot name || are_valid (split name))

-- path.Split: up to the last slash, and what follows it.
unfoldable pub path_split : Bytes → Bytes × Bytes
path_split [] = ([], [])
path_split (b ∷ bs) =
    let (dir, base) = path_split bs in
    if not (is_nil dir)
    then (b ∷ dir, base)
    else if b == slash
    then (b ∷ [], base)
    else ([], b ∷ base)

-- strings.TrimSuffix(dir, "/")
unfoldable pub trim_suffix : Bytes → Bytes
trim_suffix [] = []
trim_suffix (b ∷ []) = if b == slash then [] else b ∷ []
trim_suffix (b ∷ b' ∷ bs) = b ∷ trim_suffix (b' ∷ bs)

module _ {W : Type 0} (proto : RwProtocol W) where
  -- The loop of Lookups.
  unfoldable pub lookup_all : Bytes → List Bytes → W → Outcome Bytes × W
  lookup_all fh [] w = (done fh, w)
  lookup_all fh (comp ∷ components) w =
      let (r, w') = proto.lookup fh comp w in
      elim r [ failed e ↦ (failed e, w') | done next ↦ lookup_all next components w' ]

  -- From the root, with "." for the root itself.
  unfoldable pub resolve_fh : Bytes → W → Outcome Bytes × W
  resolve_fh name w =
      let fh = proto.root_fh w in
      elim (is_dot name) [ true ↦ (done fh, w) | false ↦ lookup_all fh (split name) w ]

  -- resolveParent; an error leaves no base.
  unfoldable pub resolve_parent : Bytes → W → Outcome (Bytes × Bytes) × W
  resolve_parent name w =
      let (dir, base) = path_split name in
      let dir' = trim_suffix dir in
      let (r, w') = resolve_fh (if is_nil dir' then 46 ∷ [] else dir') w in
      elim r [ failed e ↦ (failed e, w') | done parent ↦ (done (parent, base), w') ]
