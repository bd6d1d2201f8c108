-- ===== src/Client/Mount.antt =====
-- client/client.go: Mount.
use go_nfs_client.Prelude.{ℕ, Bool, true, false, not, ◌&&◌, List, [], ◌∷◌, if◌then◌else◌, ◌==◌}
use go_nfs_client.Prelude.Int.{pos}
use go_nfs_client.Xdr.Io.{Bytes}
use go_nfs_client.Nfs4.Conn.Stack.{World, Environment}
use go_nfs_client.Nfs4.Conn.Action.{Conn, ConnConfig, Result, ok, err, panicked}
use go_nfs_client.Nfs4.Conn.Reading.{lookup_path}
use go_nfs_client.Nfs4.Conn.Bootstrap.{dial, dial_auto, close}
use go_nfs_client.Client.Paths.{slash, is_nil, split}

pub record MountConfig : Type 0 where
  pub minor_version : ℕ
  pub auto : Bool

unfoldable pub with_minor_version : ℕ → MountConfig → MountConfig
with_minor_version v c = record { minor_version = v; auto = false }

unfoldable pub with_auto_minor_version : MountConfig → MountConfig
with_auto_minor_version c = record c { auto = true }

-- The loop that applies the options.
unfoldable pub configured : MountConfig → List (MountConfig → MountConfig) → MountConfig
configured c [] = c
configured c (o ∷ opts) = configured (o c) opts

-- strings.Trim(export, "/")
unfoldable pub trim_left : Bytes → Bytes
trim_left [] = []
trim_left (b ∷ bs) = if b == slash then trim_left bs else b ∷ bs

unfoldable pub trim_right : Bytes → Bytes
trim_right [] = []
trim_right (b ∷ bs) =
    let rest = trim_right bs in if is_nil rest && (b == slash) then [] else b ∷ rest

abbrev pub is_slash : Bytes → Bool
is_slash [] = false
is_slash (b ∷ []) = b == slash
is_slash (b ∷ b' ∷ bs) = false

-- A ConnConfig with a minor version, and zero values else.
abbrev pub config_of : ℕ → ConnConfig
config_of v = record {
  client_name = [];
  minor_version = v;
  retry = record { initial = pos 0; max_delay = pos 0; max_attempts = pos 0 };
}

module _ {W : Type 0} (env : Environment W) where
  -- The export, which is resolved unless it is empty or "/".
  unfoldable pub resolve_export : Bytes → Conn → World W → Result Conn × World W
  resolve_export export c w =
      let (r, c', w') = lookup_path env (split (trim_right (trim_left export))) c w in
      if not (is_nil export) && not (is_slash export)
      then elim r [
        | ok fh ↦ (ok c', w')
        | err e ↦ (err e, (close env c' w').1)
        | panicked ↦ (panicked, w')
      ]
      else (ok c, w)

  unfoldable pub mount_export :
      List (MountConfig → MountConfig) → Bytes → World W → Result Conn × World W
  mount_export opts export w =
      let mc = configured (record { minor_version = 0; auto = false }) opts in
      let (r, w') =
        if mc.auto
        then dial_auto env (config_of 0) w
        else dial env (config_of mc.minor_version) w in
      elim r [ err e ↦ (err e, w') | panicked ↦ (panicked, w') | ok c ↦ resolve_export export c w' ]
