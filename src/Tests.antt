-- ===== src/Tests.antt =====
-- The theorems on concrete data: a book with two asks, a bid that crosses both, a trade to settle,
-- and an engine whose queues are filled. Decimals are whole numbers here.
pub mod Sweeps
pub mod Engines
pub mod Settlements
pub mod Ledgers
pub mod Banking
pub mod Clearing
use go_exchange_back.Prelude.{ℕ, ◌≡◌, refl, false, Option, some, List, []}
use go_exchange_back.Prelude.Int.{pos}
use go_exchange_back.Packages.Int.{int_packages}
use go_exchange_back.Matching.Types.{Order, OrderBook, OrderSide, buy, sell, limit}
use go_exchange_back.Matching.Book.{new_order_book, add_order}
use go_exchange_back.Matching.Book.Invariant.{BookIsValid, add_order-BookIsValid}
use go_exchange_back.Matching.Emit.{Emitter}

abbrev pub limit_order : ℕ → ℕ → OrderSide → ℕ → ℕ → Order
limit_order id user side amount price = record {
  id = id;
  user_id = user;
  amount = pos amount;
  quote_amount = pos 0;
  coin_symbol = "BTC";
  side = side;
  filled_amount = pos 0;
  filled_quote_amount = pos 0;
  order_type = limit;
  price = pos price;
}

abbrev pub cheap_ask : Order
cheap_ask = limit_order 1 1 sell 2 10

abbrev pub dear_ask : Order
dear_ask = limit_order 2 2 sell 5 11

-- Buys 4 for at most 12 each.
abbrev pub bid : Order
bid = limit_order 3 3 buy 4 12

abbrev pub one_ask : OrderBook
one_ask = add_order new_order_book cheap_ask

abbrev pub two_asks : OrderBook
two_asks = add_order one_ask dear_ask

abbrev pub emitter : Emitter
emitter = record {
  engine_id = "e";
  trade_seq = 0;
  trade_ch = record { capacity = 4; queue = [] };
  execution_ch = some (record { capacity = 16; queue = [] });
  reservation_active = false;
  reservation_remaining = 0;
}

empty_book-BookIsValid : BookIsValid new_order_book
unfolding new_order_book
empty_book-BookIsValid = record { buys = tt; sells = tt }

pub one_ask-BookIsValid : BookIsValid one_ask
one_ask-BookIsValid =
    add_order-BookIsValid new_order_book cheap_ask refl refl empty_book-BookIsValid

pub two_asks-BookIsValid : BookIsValid two_asks
two_asks-BookIsValid = add_order-BookIsValid one_ask dear_ask refl refl one_ask-BookIsValid
