-- ===== src/Vault.antt =====
-- The SCAD Vault: its share arithmetic (packages/shared/src/constants.ts), its deposits and
-- withdrawals (apps/api/src/vault/vault.service.ts) and its hourly yield
-- (apps/api/src/vault/vault-accrual.service.ts).
pub mod Shares
pub mod Service
pub mod Accrual
pub mod Strategy
mod Tests
