-- ===== src/Tests.antt =====
-- Runs of the definitions on small inputs, and the theorems at such inputs.
mod PolicyRuns
mod SetRuns
mod UploadRuns
mod ObjectRuns
mod CredentialRuns
mod ComposeRuns
mod NotificationRuns
mod NameRuns
mod MultipartRuns
mod WorkerRuns
mod FormRuns
