-- ===== src/Auth.antt =====
-- backend/src/auth: sign-in with a wallet, with a passkey and with a social account, and the
-- sessions that each of them starts.
mod Entries
pub mod Sessions
pub mod State
mod Sample
pub mod Wallet
pub mod Passkeys
pub mod OAuth
