-- ===== src/Matching/Types.antt =====
-- internal/matching/order.go, internal/model/order.go, internal/model/trade.go and the command and
-- event types of internal/matching/engine.go. Times feed only the metric observers and are left out.
use go_exchange_back.Prelude.{ℕ, Bool, true, false, Option, String}
use go_exchange_back.Packages.{Packages}

-- `model.OrderSide` and `model.OrderType` are strings: any other text is a value too.
pub data OrderSide : Type 0 where
  buy sell : OrderSide
  other_side : String → OrderSide

pub data OrderType : Type 0 where
  limit market : OrderType
  other_type : String → OrderType

abbrev pub is_market : OrderType → Bool
is_market limit = false
is_market market = true
is_market (other_type s) = false

-- `fmt.Sprintf("%s-%d", engineID, tradeSeq)`, kept as its two parts.
pub record EventId : Type 0 where
  pub engine_id : String
  pub sequence : ℕ

module _ ⦃pk : Packages⦄ where
  open pk use {Decimal, Deque, Tree}

  pub record Order : Type 0 where
    pub id : ℕ
    pub user_id : ℕ
    pub amount : Decimal
    pub quote_amount : Decimal
    pub coin_symbol : String
    pub side : OrderSide
    pub filled_amount : Decimal
    pub filled_quote_amount : Decimal
    pub order_type : OrderType
    pub price : Decimal

  -- The fields that the engine fills; settlement adds the fees.
  pub record Trade : Type 0 where
    pub engine_sequence : ℕ
    pub engine_event_id : EventId
    pub coin_symbol : String
    pub price : Decimal
    pub quantity : Decimal
    pub buy_order_id : ℕ
    pub sell_order_id : ℕ

  pub record MarketOrderDone : Type 0 where
    pub order_id : ℕ
    pub coin_symbol : String
    pub side : OrderSide
    pub filled_amount : Decimal
    pub filled_quote_amount : Decimal
    pub remaining_amount : Decimal
    pub remaining_quote_amount : Decimal

  -- `command_id` is 0 for a cancellation without a stored command.
  pub record OrderCancelled : Type 0 where
    pub command_id : ℕ
    pub order_id : ℕ
    pub coin_symbol : String
    pub side : OrderSide
    pub engine_event_id : EventId

  -- The struct has three pointers of which the engine sets exactly one.
  pub data ExecutionEvent : Type 0 where
    trade : Trade → ExecutionEvent
    market_order_done : MarketOrderDone → ExecutionEvent
    order_cancelled : OrderCancelled → ExecutionEvent

  -- The reply goes to a channel of its own with one place: `wants_reply` says that there is one.
  pub record CancelOrderCommand : Type 0 where
    pub command_id : ℕ
    pub coin_symbol : String
    pub order_id : ℕ
    pub side : OrderSide
    pub price : Decimal
    pub wants_reply : Bool

  -- A level of the tree is its price, the key, with its deque of orders.
  pub record OrderBook : Type 0 where
    pub buy_orders : Tree (Deque Order)
    pub sell_orders : Tree (Deque Order)

pub data CancelError : Type 0 where
  order_not_found invalid_command engine_unavailable timed_out backpressured : CancelError

pub record CancelOrderResult : Type 0 where
  pub removed : Bool
  pub error : Option CancelError
