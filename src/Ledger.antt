-- ===== src/Ledger.antt =====
-- The ledger: event payloads, the folded state, the reducer, its views and the store.
pub mod Events
pub mod State
pub mod Mark
pub mod Fill
pub mod Reducer
pub mod Views
pub mod Store
pub mod Reconcile
