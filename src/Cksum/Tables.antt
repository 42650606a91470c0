-- ===== src/Cksum/Tables.antt =====
-- Client/cksum_new.cpp: the table `crctab`, row by row.
pub mod Row0
pub mod Row1
pub mod Row2
pub mod Row3
pub mod Row4
pub mod Row5
pub mod Row6
pub mod Row7
unfoldable pub use Row0.{crctab_0}
unfoldable pub use Row1.{crctab_1}
unfoldable pub use Row2.{crctab_2}
unfoldable pub use Row3.{crctab_3}
unfoldable pub use Row4.{crctab_4}
unfoldable pub use Row5.{crctab_5}
unfoldable pub use Row6.{crctab_6}
unfoldable pub use Row7.{crctab_7}
