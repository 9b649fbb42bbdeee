-- ===== src/Differential.antt =====
-- What tests/test_differential.cpp and tests/test_differential_debug.cpp try out: the engine and the
-- reference engine give the same events. A state of both is related by the same book of entries.
pub mod Ids
pub mod Orders
pub mod Depth
pub mod Stream
mod Tests
use cpp_orderbook_engine.Prelude.{◌≡◌, List}
use cpp_orderbook_engine.Order.{Slot}
use cpp_orderbook_engine.Engine.{MatchingEngine}
use cpp_orderbook_engine.Engine.Book.{Book, IsBook, IsPositive}
use cpp_orderbook_engine.Engine.Abstract.{entries}
use cpp_orderbook_engine.Reference.{ReferenceEngine}
use cpp_orderbook_engine.Reference.Shelf.{IsShelved, book_of}

-- Both engines are well formed, and have the same entries in the same order at every price.
pub record Agrees (e : MatchingEngine) (r : ReferenceEngine) : Type 0 where
  pub free : List Slot
  pub book : Book
  pub booked : IsBook e free book
  pub positive : IsPositive e.pool.pool book
  pub shelved : IsShelved r
  pub same : entries e.pool.pool book ≡ book_of r
