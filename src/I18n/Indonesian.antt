-- ===== src/I18n/Indonesian.antt =====
-- web/src/lib/i18n/id.ts: the dictionary, in parts of its lines.
mod Part1
mod Part2
mod Part3
mod Part4
mod Part5
mod Part6
use ku_crud.Base.{String, ◌++◌}
use ku_crud.Base.Assoc.{Assoc}
pub use Part1.{indonesian_1}
pub use Part2.{indonesian_2}
pub use Part3.{indonesian_3}
pub use Part4.{indonesian_4}
pub use Part5.{indonesian_5}
pub use Part6.{indonesian_6}

abbrev pub indonesian : Assoc String
indonesian =
    indonesian_1 ++ indonesian_2 ++ indonesian_3 ++ indonesian_4 ++ indonesian_5 ++ indonesian_6
