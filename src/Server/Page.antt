-- ===== src/Server/Page.antt =====
-- internal/server/ui_template.go: what the template of the list shows and offers, and its script.
-- The texts of the script are bytes as everywhere; its numbers and what fetch makes of a header are a
-- parameter, Browser of Page/Script.antt.
pub mod Html
pub mod Script
pub mod Numbers
pub mod Rows
pub mod Bar
pub mod Board
pub mod Browse
pub mod Headers
pub mod Query
pub mod Origins
pub mod Refresh
pub mod Lost
pub mod Paths
pub mod Offers
pub mod Form
pub mod Submission
