-- ===== src/Tests.antt =====
-- Runs of the model at concrete inputs, and the theorems applied to them.
mod FileRuns
mod LockRuns
mod LogRuns
mod RecoveryRuns
mod ServerRuns
mod TransactionRuns
mod ModelRuns
mod RaceRuns
mod WorldRuns
mod ConnectionRuns
mod HistoryRuns
