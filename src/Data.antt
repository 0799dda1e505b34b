-- ===== src/Data.antt =====
-- web/src/pages/Data.tsx, the page of one table: the state of its queries and of its selection
-- (`Session`), what it asks the server for (`Query`), the row form (`Form`) with its inputs
-- (`Fields`), deleting and actions (`Bulk`), and what the grid shows (`Display`).
pub mod Session
pub mod Query
pub mod Form
pub mod Fields
pub mod Bulk
pub mod Display
pub mod Effects
