-- ===== src/Tests.antt =====
-- Concrete runs of the definitions, and the theorems at concrete inputs.
mod Samples
mod Numbered
mod Client
mod Filters
mod Editors
mod Forms
mod Board
mod Page
mod Rows
mod Calendar
mod Transfer
mod Dash
mod Pages
mod Uploads
