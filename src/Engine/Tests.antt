-- ===== src/Engine/Tests.antt =====
-- A run of the engine, and the theorems at its states.
use cpp_orderbook_engine.Prelude.{
  ℕ, ◌<◌, ◌≡◌, ◌≢◌, refl, pos, Option, none, some, true, arith, ◌+ℤ◌, ◌-ℤ◌, ◌*ℤ◌, ◌/ℤ◌, ◌<ℤ◌, ◌≤ℤ◌,
  min_ℤ,
}
use cpp_orderbook_engine.Types.{
  Side, buy, sell, OrderType, limit, IncomingOrder, MatchEvent, no_event,
}
use cpp_orderbook_engine.Bits.{bit_at, set_bit, clear_bit, clz, ctz}
use cpp_orderbook_engine.Bitset
use cpp_orderbook_engine.Bitset.{bitset, find_highest, find_lowest, highest_from, lowest_from}
use cpp_orderbook_engine.Level
use cpp_orderbook_engine.Level.{push_back, set_next, set_prev, unlink_after, unlink_before}
use cpp_orderbook_engine.Pool.{uint32_max, order_pool, allocate, deallocate}
use cpp_orderbook_engine.Ladder.{
  price_ladder, set_base_price, price_to_index, index_to_price, find_best_bid, find_best_ask,
  mark_empty, mark_occupied,
}
use cpp_orderbook_engine.Map
use cpp_orderbook_engine.Map.{find, assign}
use cpp_orderbook_engine.Engine.{MatchingEngine, matching_engine, ladder, best_bid, best_ask}
use cpp_orderbook_engine.Engine.Match.{
  match_loop, best_index, crosses, drop_filled, fill_front, level_fuel, match_level, match_order,
}
use cpp_orderbook_engine.Engine.Requests.{
  process_order, cancel_order, verify_invariants, validate_order, after_fill, final_status,
  finish_order, insert_order, rest_order, without_fill, in_book,
}
use cpp_orderbook_engine.Engine.Sound.{
  Reachable, created, processed, Reachable-IsSound, verify_invariants-Reachable, IsSound,
  process_order-IsSound, cancel_order-IsSound,
}
use cpp_orderbook_engine.Engine.Book.{IsBook}
use cpp_orderbook_engine.Engine.Process.{InRange, Processed, process_order-Processed}
use cpp_orderbook_engine.Engine.Outcomes.{Accounted, process_order-Accounted}
use cpp_orderbook_engine.Engine.Cancel.{CancelDone, cancel_order-CancelDone}
use cpp_orderbook_engine.Engine.Verify.{IsBestPrice, best_prices, matching_engine-IsBook, no_orders}
use cpp_orderbook_engine.Engine.Bounds.{remaining-Reachable}
use cpp_orderbook_engine.Engine.Roundtrip.{Restored, cancel_order-process_order}
use cpp_orderbook_engine.Engine.Abstract.{entries}
use cpp_orderbook_engine.Engine.Trace.{Stage, IsStage}
use cpp_orderbook_engine.Engine.Total.{MatchDone, match_order-MatchDone}
use cpp_orderbook_engine.Pool.Free.{slots}

abbrev pub order : ℕ → Side → OrderType → ℕ → ℕ → IncomingOrder
order id s t price q = record {
  id = id;
  side = s;
  type = t;
  price = pos price;
  quantity = pos q;
  timestamp = id;
}

abbrev pub result : Option (MatchEvent × MatchingEngine) → MatchEvent × MatchingEngine
result none = (no_event, matching_engine (pos 100) 10)
result (some r) = r

abbrev pub new_engine : MatchingEngine
new_engine = matching_engine (pos 100) 10

abbrev pub sell_order : IncomingOrder
sell_order = order 1 sell limit 10 5

abbrev pub after_sell : MatchEvent × MatchingEngine
after_sell = result (process_order new_engine sell_order)

abbrev pub buy_order : IncomingOrder
buy_order = order 2 buy limit 12 8

abbrev pub after_buy : MatchEvent × MatchingEngine
after_buy = result (process_order after_sell.1 buy_order)

new_engine-Reachable : Reachable new_engine
new_engine-Reachable = created (pos 100) 10 (omega arith) (omega arith)

after_sell-Reachable : Reachable after_sell.1
unfolding process_order validate_order matching_engine find match_loop best_index find_best_bid
    find_best_ask find_highest find_lowest set_base_price price_ladder bitset ◌-ℤ◌ allocate
    order_pool assign price_to_index ◌/ℤ◌ push_back set_next set_prev bit_at clear_bit clz ctz
    set_bit Bitset.clear highest_from lowest_from Bitset.set after_fill crosses drop_filled
    fill_front final_status finish_order insert_order level_fuel match_level match_order rest_order
    without_fill index_to_price mark_empty mark_occupied Level.remove unlink_after unlink_before
    Map.erase deallocate min_ℤ ◌*ℤ◌ ◌+ℤ◌
after_sell-Reachable =
    processed sell_order after_sell.0 new_engine-Reachable refl refl (λ _. (10, refl, omega arith))
      refl

after_buy-Reachable : Reachable after_buy.1
unfolding process_order validate_order matching_engine find match_loop best_index find_best_bid
    find_best_ask find_highest find_lowest set_base_price price_ladder bitset ◌-ℤ◌ allocate
    order_pool assign price_to_index ◌/ℤ◌ push_back set_next set_prev bit_at clear_bit clz ctz
    set_bit Bitset.clear highest_from lowest_from Bitset.set after_fill crosses drop_filled
    fill_front final_status finish_order insert_order level_fuel match_level match_order rest_order
    without_fill index_to_price mark_empty mark_occupied Level.remove unlink_after unlink_before
    Map.erase deallocate min_ℤ ◌*ℤ◌ ◌+ℤ◌
after_buy-Reachable =
    processed buy_order after_buy.0 after_sell-Reachable refl refl (λ _. (12, refl, omega arith))
      refl

-- A buy of 8 against a sell of 5 leaves a bid of 3 behind, and the check of the engine succeeds.
verify_invariants-Reachable_example : verify_invariants after_buy.1 ≡ true
verify_invariants-Reachable_example = verify_invariants-Reachable after_buy.1 after_buy-Reachable

-- The state in which the sell of 5 at 10 rests, and the buy of 8 at 12 that comes next.
state : IsSound after_sell.1
state = Reachable-IsSound after_sell-Reachable

pub buy_valid : validate_order buy_order ≡ true
unfolding validate_order
buy_valid = refl

pub buy_fresh : find buy_order.id after_sell.1.order_map ≡ none
unfolding process_order validate_order matching_engine find match_loop best_index find_best_bid
    find_best_ask find_highest find_lowest set_base_price price_ladder bitset ◌-ℤ◌ allocate
    order_pool assign price_to_index ◌/ℤ◌ push_back set_next set_prev bit_at clear_bit clz ctz
    set_bit Bitset.clear highest_from lowest_from Bitset.set after_fill crosses drop_filled
    fill_front final_status finish_order insert_order level_fuel match_level match_order rest_order
    without_fill index_to_price mark_empty mark_occupied Level.remove unlink_after unlink_before
    Map.erase deallocate min_ℤ ◌*ℤ◌ ◌+ℤ◌
buy_fresh = refl

pub buy-InRange : InRange after_sell.1 buy_order
unfolding process_order validate_order matching_engine find match_loop best_index find_best_bid
    find_best_ask find_highest find_lowest set_base_price price_ladder bitset ◌-ℤ◌ allocate
    order_pool assign price_to_index ◌/ℤ◌ push_back set_next set_prev bit_at clear_bit clz ctz
    set_bit Bitset.clear highest_from lowest_from Bitset.set after_fill crosses drop_filled
    fill_front final_status finish_order insert_order level_fuel match_level match_order rest_order
    without_fill index_to_price mark_empty mark_occupied Level.remove unlink_after unlink_before
    Map.erase deallocate min_ℤ ◌*ℤ◌ ◌+ℤ◌
buy-InRange = λ _. (12, refl, omega arith)

pub ten_in_range : 10 < (ladder sell after_sell.1).max_levels
unfolding process_order validate_order matching_engine find match_loop best_index find_best_bid
    find_best_ask find_highest find_lowest set_base_price price_ladder bitset ◌-ℤ◌ allocate
    order_pool assign price_to_index ◌/ℤ◌ push_back set_next set_prev bit_at clear_bit clz ctz
    set_bit Bitset.clear highest_from lowest_from Bitset.set after_fill crosses drop_filled
    fill_front final_status finish_order insert_order level_fuel match_level match_order rest_order
    without_fill index_to_price mark_empty mark_occupied Level.remove unlink_after unlink_before
    Map.erase deallocate min_ℤ ◌*ℤ◌ ◌+ℤ◌
ten_in_range = omega arith

pub sell_mapped : find 1 after_sell.1.order_map ≡ some 0
unfolding process_order validate_order matching_engine find match_loop best_index find_best_bid
    find_best_ask find_highest find_lowest set_base_price price_ladder bitset ◌-ℤ◌ allocate
    order_pool assign price_to_index ◌/ℤ◌ push_back set_next set_prev bit_at clear_bit clz ctz
    set_bit Bitset.clear highest_from lowest_from Bitset.set after_fill crosses drop_filled
    fill_front final_status finish_order insert_order level_fuel match_level match_order rest_order
    without_fill index_to_price mark_empty mark_occupied Level.remove unlink_after unlink_before
    Map.erase deallocate min_ℤ ◌*ℤ◌ ◌+ℤ◌
sell_mapped = refl

pub sell_returns : process_order new_engine sell_order ≡ some after_sell
unfolding process_order validate_order matching_engine find match_loop best_index find_best_bid
    find_best_ask find_highest find_lowest set_base_price price_ladder bitset ◌-ℤ◌ allocate
    order_pool assign price_to_index ◌/ℤ◌ push_back set_next set_prev bit_at clear_bit clz ctz
    set_bit Bitset.clear highest_from lowest_from Bitset.set after_fill crosses drop_filled
    fill_front final_status finish_order insert_order level_fuel match_level match_order rest_order
    without_fill index_to_price mark_empty mark_occupied Level.remove unlink_after unlink_before
    Map.erase deallocate min_ℤ ◌*ℤ◌ ◌+ℤ◌
sell_returns = refl

pub buy_returns : process_order after_sell.1 buy_order ≡ some after_buy
unfolding process_order validate_order matching_engine find match_loop best_index find_best_bid
    find_best_ask find_highest find_lowest set_base_price price_ladder bitset ◌-ℤ◌ allocate
    order_pool assign price_to_index ◌/ℤ◌ push_back set_next set_prev bit_at clear_bit clz ctz
    set_bit Bitset.clear highest_from lowest_from Bitset.set after_fill crosses drop_filled
    fill_front final_status finish_order insert_order level_fuel match_level match_order rest_order
    without_fill index_to_price mark_empty mark_occupied Level.remove unlink_after unlink_before
    Map.erase deallocate min_ℤ ◌*ℤ◌ ◌+ℤ◌
buy_returns = refl

pub sell_valid : validate_order sell_order ≡ true
unfolding validate_order
sell_valid = refl

pub sell_fresh : find sell_order.id new_engine.order_map ≡ none
unfolding matching_engine find
sell_fresh = refl

pub sell-InRange : InRange new_engine sell_order
unfolding matching_engine price_ladder set_base_price ◌-ℤ◌ ◌/ℤ◌
sell-InRange = λ _. (10, refl, omega arith)

pub new_room : new_engine.pool.free_head ≢ uint32_max
unfolding matching_engine order_pool
new_room = omega arith

pub sold_room : after_sell.1.pool.free_head ≢ uint32_max
unfolding process_order validate_order matching_engine find match_loop best_index find_best_bid
    find_best_ask find_highest find_lowest set_base_price price_ladder bitset ◌-ℤ◌ allocate
    order_pool assign price_to_index ◌/ℤ◌ push_back set_next set_prev bit_at clear_bit clz ctz
    set_bit Bitset.clear highest_from lowest_from Bitset.set after_fill crosses drop_filled
    fill_front final_status finish_order insert_order level_fuel match_level match_order rest_order
    without_fill index_to_price mark_empty mark_occupied Level.remove unlink_after unlink_before
    Map.erase deallocate min_ℤ ◌*ℤ◌ ◌+ℤ◌
sold_room = omega arith

process_order-Processed_example :
    Processed after_sell.1 state.free state.book buy_order (process_order after_sell.1 buy_order)
process_order-Processed_example =
    process_order-Processed after_sell.1 state.free state.book buy_order state.booked state.positive
      buy_valid buy_fresh buy-InRange

process_order-Accounted_example : Accounted buy_order (process_order after_sell.1 buy_order)
process_order-Accounted_example =
    process_order-Accounted after_sell.1 state.free state.book buy_order state.booked state.positive
      buy_valid buy_fresh buy-InRange

process_order-IsSound_example :
    (ev : MatchEvent) × (e' : MatchingEngine) × (process_order after_sell.1 buy_order
      ≡ some (ev, e'))
    × IsSound e'
process_order-IsSound_example =
    process_order-IsSound after_sell.1 buy_order state buy_valid buy_fresh buy-InRange

cancel_order-CancelDone_example :
    CancelDone after_sell.1 state.free state.book 1 0 (cancel_order after_sell.1 1)
cancel_order-CancelDone_example =
    cancel_order-CancelDone after_sell.1 state.free state.book state.booked 1 0 sell_mapped

cancel_order-IsSound_example : IsSound (cancel_order after_sell.1 1).1
cancel_order-IsSound_example = cancel_order-IsSound after_sell.1 1 state

best_prices_example :
    IsBestPrice buy state.book (best_ask after_sell.1)
    × IsBestPrice sell state.book (best_bid after_sell.1)
best_prices_example = best_prices after_sell.1 state.free state.book state.booked

matching_engine-IsBook_example : IsBook new_engine (slots 10 0) no_orders
matching_engine-IsBook_example = matching_engine-IsBook (pos 100) 10 (omega arith) (omega arith)

-- The matching of the buy against the sell.
abbrev buy_stage : Stage
buy_stage = record {
  now = record { engine = after_sell.1; order = buy_order; event = no_event };
  free = state.free;
  book = state.book;
}

buy_stage-IsStage : IsStage buy_stage
buy_stage-IsStage = record {
  booked = state.booked;
  positive = state.positive;
  natural = omega arith;
}

match_order-MatchDone_example : MatchDone buy buy_stage (match_order buy buy_stage.now)
match_order-MatchDone_example = match_order-MatchDone buy buy_stage buy_stage-IsStage

remaining-Reachable_example :
    ((after_sell.1.pool.pool 0).id ≡ 1)
    × (in_book (after_sell.1.pool.pool 0).status ≡ true)
    × (pos 0 <ℤ (after_sell.1.pool.pool 0).remaining)
    × ((after_sell.1.pool.pool 0).remaining ≤ℤ (after_sell.1.pool.pool 0).quantity)
remaining-Reachable_example = remaining-Reachable after_sell.1 1 0 after_sell-Reachable sell_mapped

-- The sell of 5 at 10 rests in the new engine and is cancelled.
cancel_order-process_order_example :
    (r : MatchEvent × MatchingEngine) × (process_order new_engine sell_order ≡ some r)
    × Restored (slots 10 0) (entries new_engine.pool.pool no_orders) sell_order r
cancel_order-process_order_example =
    cancel_order-process_order new_engine (slots 10 0) no_orders sell_order
      (matching_engine-IsBook (pos 100) 10 (omega arith) (omega arith))
      (λ side i s h. absurd (ground arith)) sell_valid sell_fresh sell-InRange (λ _. new_room) refl
      (λ j h. absurd (cc))
