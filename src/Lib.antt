-- ===== src/Lib.antt =====
-- A limit order book engine with price-time priority: its model and its correctness.
--
-- The program (paths from the repository's root):
--   include/matching/types.h, events.h   the values of the interface: Types
--   include/matching/bitset.h            the set of occupied price levels: Bits (single bits and the
--                                        compiler's bit counts) and Bitset
--   include/matching/order.h             orders (Order), the intrusive list of a price level
--                                        (Level), and the pool with its free list (Pool)
--   include/matching/price_ladder.h,     levels by index, with the bitset: Ladder
--   src/price_ladder.cpp
--   include/matching/matching_engine.h,  two ladders, the pool and the map from ids to orders: Engine
--   src/matching_engine.cpp              (the data and the reading calls), Engine.Match (the matching
--                                        loops) and Engine.Requests (the other calls)
--   include/matching/spsc_queue.h        the ring buffer between two threads: Queue
--   include/matching/order_gateway.h,    validation, numbering and queueing of orders: Gateway
--   src/order_gateway.cpp
--   include/matching/market_data.h       kept trades and reports, and snapshots: MarketData
--   include/matching/reference_engine.h, the slow engine that tests/test_differential.cpp compares
--   src/reference_engine.cpp             the other one with: Reference (the data and the reading calls),
--                                        Reference.Matching and Reference.Calls
-- A gateway puts orders into the queue; the engine processes them one at a time and returns an event;
-- the handler takes the events and reads the engine's best prices and quantities.
--
-- Each class is a record with its members, and each member function a function of the same name in
-- lower case that takes the record and returns the new one; constructors have the name of the class.
-- match_buy and match_sell are one definition, match_order, with the side of the incoming order:
-- match_loop is the outer loop, match_level the inner one, fill_front its body and drop_filled what
-- is done with an order that is fully filled. process_order ends in finish_order, which uses
-- final_status and rest_order.
--
-- An Order* is the index of a slot of the pool's vector (Order.Slot), and all orders stand in one
-- storage (Order.Orders), so that the list links, the map and the pool alias the same orders.
-- int64_t prices and quantities are integers without a bound (Prelude.Int), but the sums of
-- resting_quantity, which add up many orders, have 64 bits (int64; where C++ leaves the overflow
-- undefined they wrap around); a std::vector is a function from indices with its size beside it; std::unordered_map is an association list (Map), of which only
-- find, assignment, erasure and size are used. The index of the pool, the words of the bitset and the
-- counters of the queue and of the gateway keep their widths; the sizes of lists do not wrap around.
--
-- Fuel: a walk over a level has one round for each order and one to see the end (Level.for_each); the
-- inner matching loop has as many (Engine.Match.level_fuel), and the outer one has a round for each
-- level and two more (Engine.Match.match_order). Running out of fuel is the result none. Level.Walk and
-- Engine.Total are about the fuel being enough.
--
-- The invariant of the engine is Engine.Book.IsBook: the free list leads through distinct slots of the
-- pool, an order rests on exactly one level of one side and its slot is not free, every level holds
-- its orders in the order of their arrival, a bit is set exactly for a level with orders, and the map
-- finds exactly the orders of the book. It does not say that every slot is free or in the book.
-- Engine.Trace has the matching as a step relation, Engine.Sound the states that calls of the engine
-- reach, and Engine.Bounds what is left of the orders in them.
--
-- The reference engine keeps its orders in lists in maps from prices. An element of a list is a node,
-- an address in a store (Reference.Node), since the map of ids points to it; a std::map is the list of
-- its elements in the map's order. match_buy and match_sell are match_levels with the side of the
-- incoming order, match_level the inner loop and fill_node its body. Its loops are recursions on
-- these lists and need no fuel. Reference.Shelf.IsShelf is its invariant; cancelled orders stay in
-- their levels until a matching meets them.
--
-- Spec has price-time priority as an abstract machine on the entries of each price, which stands for
-- no code: a round takes the oldest entry at the best price, in full or in part, and Spec.Unique is
-- about runs to the end being unique. Engine.Abstract relates the steps of the engine to its rounds,
-- Reference.Inner and Reference.Outer the loops of the reference engine. Differential.Agrees relates
-- two engines that have the same entries; Differential.Stream runs requests through both.
--
-- The queue's operations are functions (Queue), and try_push and try_pop are also the single loads and
-- stores of a producer and a consumer (Queue.Threads), which a list of moves interleaves.
--
-- Not modelled: tests/ and benchmarks/; a pool of capacity 0, whose constructor writes out of range;
-- loads and stores of the queue that take effect out of their order, as far as acquire and release
-- allow it; overflow of prices and of the quantities of single orders at 2 ^ 63; the overflow of
-- num_bits + 63 in the bitset's constructor, for a ladder of more than 2 ^ 31 - 64 levels; the effect of
-- an access out of range of a vector. src/order_pool.cpp, src/spsc_queue.cpp and src/market_data.cpp
-- hold no code.
pub mod Prelude
pub mod Types
pub mod Bits
pub mod Bitset
pub mod Order
pub mod Level
pub mod Pool
pub mod Ladder
pub mod Map
pub mod Queue
pub mod Engine
pub mod Gateway
pub mod MarketData
pub mod Spec
pub mod Reference
pub mod Differential
