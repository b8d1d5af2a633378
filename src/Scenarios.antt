-- ===== src/Scenarios.antt =====
-- Concrete runs of the model and the witnesses of its theorems.
pub mod World
mod Logins
mod Recently
mod Sessions
mod Reconciling
mod Values
mod Staffing
mod Discovering
mod Setting
pub mod Placing
mod Failing
mod Testing
mod Waiting
mod Serving
