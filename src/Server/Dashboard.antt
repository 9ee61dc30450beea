-- ===== src/Server/Dashboard.antt =====
-- internal/server/ui.go: the dashboard.
pub mod Texts
pub mod Itoa
pub mod Bar
pub mod Window
pub mod Views
pub mod Agreement
