-- ===== src/Controller.antt =====
-- internal/controller: the reconcilers around the policy.
pub mod PodInput
pub mod Backoff
pub mod Resize
pub mod Inputs
pub mod Series
pub mod Settings
pub mod Filters
pub mod Limiters
pub mod Reconcile
pub mod Status
pub mod HeadroomConfig
pub mod Watches
mod Tests
