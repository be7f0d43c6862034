-- ===== src/ViewModels.antt =====
-- tui/viewmodels: what the text interface keeps beside its widgets.
pub mod Approval
mod Examples
