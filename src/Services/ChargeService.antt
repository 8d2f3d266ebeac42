-- ===== src/Services/ChargeService.antt =====
-- app/services/charge_service.py: the commands and reads over the store.
pub mod Ledger
pub mod Reconcile
pub mod Commands
pub mod Tasks
pub mod Operator
pub mod Reads
pub mod Evolution
pub mod Keeps
pub mod Requests
pub mod Epoch
pub mod Validation
