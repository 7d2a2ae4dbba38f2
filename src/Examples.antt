-- ===== src/Examples.antt =====
-- Concrete devices, tests, and the theorems at concrete inputs.
mod Store
mod ConfigRuns
mod Ram
mod OtaRuns
mod Core
mod EntryRuns
mod BootRuns
mod UploadRuns
mod CertRuns
mod WifiRuns
mod TlsRuns
mod LoadRuns
mod StreamRuns
mod SharedRuns
mod HandoverRuns
mod EnterRuns
mod CommitRuns
mod CutRuns
mod MoveRuns
mod EndRuns
mod LogRuns
mod WatchdogRuns
