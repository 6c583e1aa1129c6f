-- ===== src/Controller.antt =====
-- The methods of StaleSecretWatchReconciler in
-- internal/controller/stalesecretwatch_controller.go, less those of Store, WatchList and Staleness.
pub mod Status
pub mod Finalizer
pub mod Daily
pub mod Reconcile
pub mod Requests
pub mod Safety
pub mod Outcomes
pub mod Requeue
pub mod Reported
pub mod History
mod Tests
