-- ===== src/Nfs4/Conn/Zero.antt =====
-- Results as `var res T` declares them, and results as CallCompound takes them.
pub mod Reads
pub mod Boot
pub mod Writes
unfoldable pub use Reads.*
unfoldable pub use Boot.*
unfoldable pub use Writes.*
use go_nfs_client.Xdr.Decoder.{pure, ◌>>=◌}
use go_nfs_client.Nfs4.Compound.{Res}

-- A call with several results works on all of them; these pick the one that a decoder is about.
unfoldable pub first : {A B : Type 0} → Res A → Res (A × B)
first r = record { op = r.op; decode_res = λ (a, b). (do a' ← r.decode_res a; pure (a', b)) }

unfoldable pub second : {A B : Type 0} → Res B → Res (A × B)
second r = record { op = r.op; decode_res = λ (a, b). (do b' ← r.decode_res b; pure (a, b')) }
