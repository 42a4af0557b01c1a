-- ===== src/Table.antt =====
-- The SQL statements of the worlds modules, over a table as the list of its rows in `rowid` order.
mod Laws
mod Keyed
unfoldable pub use Keyed.*
pub use Laws.*
