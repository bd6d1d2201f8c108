-- ===== src/Examples.antt =====
-- Runs of the model on concrete inputs, and the theorems at inputs that meet their hypotheses.
mod XdrRuns
mod RpcRuns
mod ConnRuns
mod MountRuns
mod WireRuns
mod NfsRuns
mod LeaseRuns
mod FileRuns
mod HandleRuns
mod DirRuns
mod AttrRuns
mod SessionRuns
