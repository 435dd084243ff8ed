-- ===== src/Examples.antt =====
-- Theorems at concrete inputs, and test runs of the definitions.
mod AccessRuns
mod AesRuns
mod AuthRuns
mod ConfirmationRuns
mod CreateRuns
mod CrudRuns
mod GrantRuns
mod JsonText
mod LimitRuns
mod MutexRuns
mod PasswordRuns
mod SessionRuns
mod Stamps
mod StorageRuns
mod TotpRuns
mod TrashRuns
mod UtilsRuns
