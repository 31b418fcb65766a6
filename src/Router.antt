-- ===== src/Router.antt =====
-- src/aiops_apm/router: the handlers of the HTTP interface, by what they do to the stores.
pub mod Evidence
pub mod Outbound
pub mod Problems
