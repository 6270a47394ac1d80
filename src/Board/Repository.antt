-- ===== src/Board/Repository.antt =====
-- BoardRepository (src/board/repository.py). A read is a function of the world, and a write is an
-- action; `commit`, `flush` and `refresh` have no counterpart, since a write is seen at once.
-- Where a query has no `ORDER BY`, or equal keys, the rows come in the order of the table, which is
-- one of the orders that the database may answer in.
mod Counters
mod Entities
mod Tasks
mod Lookups
mod Reorder
unfoldable pub use Counters.*
unfoldable pub use Entities.*
unfoldable pub use Tasks.*
unfoldable pub use Lookups.*
unfoldable pub use Reorder.*
