-- ===== src/Types.antt =====
-- web/src/lib/types.ts, in the groups of that file. A number is a natural number; a field that may
-- be null or left out is an `Option`, with null and undefined as one `none`.
mod Column
mod Table
mod Access
mod Hook
pub use Column.*
pub use Table.*
pub use Access.*
pub use Hook.*
