-- ===== src/I18n/English.antt =====
-- web/src/lib/i18n/en.ts: the dictionary, in parts of its lines.
mod Part1
mod Part2
mod Part3
mod Part4
mod Part5
mod Part6
use ku_crud.Base.{String, ◌++◌}
use ku_crud.Base.Assoc.{Assoc}
pub use Part1.{english_1}
pub use Part2.{english_2}
pub use Part3.{english_3}
pub use Part4.{english_4}
pub use Part5.{english_5}
pub use Part6.{english_6}

abbrev pub english : Assoc String
english = english_1 ++ english_2 ++ english_3 ++ english_4 ++ english_5 ++ english_6
