-- ===== src/Matching/Sweep/Outcomes.antt =====
-- What a slice of a sweep conserves: the book's invariant, the base amount that moves from resting
-- orders to the incoming one, and the incoming order's own amounts.
use go_exchange_back.Prelude.{
  ℕ, ◌+◌, ◌<◌, ◌≡◌, refl, sym, ap, ◌∙◌, Bool, true, false, inl, inr, some, Bool-cases,
}
use go_exchange_back.Packages.{Packages}
use go_exchange_back.Packages.Laws.{add_transfer, less-sub-zero, le-mul, le_trans}
use go_exchange_back.Matching.Types.{Order, OrderBook, buy, sell, is_market}
use go_exchange_back.Matching.Book.Invariant.{BookIsValid}
use go_exchange_back.Matching.Book.Contents.{contents}
use go_exchange_back.Matching.Book.Totals.{total}
use go_exchange_back.Matching.Emit.{Emitter, returns}
use go_exchange_back.Matching.Sweep.{
  is_positive, take_base, Fill, Loop, Sweep, match_buy, match_sell, match_market_buy,
  match_market_sell, match_slice, loop_for, sweep_of, resting_orders,
}
use go_exchange_back.Matching.Sweep.Rounds.{
  sells, buys, Takes, match_buy-BuyRound, match_sell-SellRound, match_market_buy-MarketBuyRound,
  match_market_sell-MarketSellRound, pay_quote, earn_quote,
}
use go_exchange_back.Matching.Sweep.Loops.{
  Recorded, loop_inv, match_slice_loop, loop_for_buy, loop_for_sell,
}

module _ ⦃pk : Packages⦄ where
  open pk use {
    Decimal, Deque, Tree, levels, zero_decimal, add, sub, mul, quo, less_than, less_irrefl,
    add_comm, add_assoc, mul-quo, less_trans, less-add, mul-add, mul_pos, sub-add,
  }

  abbrev side_total : (OrderBook → Tree (Deque Order)) → OrderBook → Decimal
  side_total side book = total (contents (levels (side book)))

  -- The book is valid, one side of it is as before, and what the other side has lost the incoming
  -- order has gained. The order's identity, side, type, price and symbol are as before.
  pub record Supplies (taken kept : OrderBook → Tree (Deque Order)) (book : OrderBook)
      (order : Order) (s : Sweep) : Type 0 where
    pub valid : BookIsValid s.book
    pub other_side : kept s.book ≡ kept book
    pub supply :
        add (total (contents (levels (taken book)))) order.filled_amount
        ≡ add (total (contents (levels (taken s.book)))) s.order.filled_amount
    pub same_order : s.order ≡ record order {
      amount = s.order.amount;
      quote_amount = s.order.quote_amount;
      filled_amount = s.order.filled_amount;
      filled_quote_amount = s.order.filled_quote_amount;
    }

  -- Base amount asked for or offered: what is left and what is filled add up, and what is left is
  -- not negative.
  pub record SpendsBase (order : Order) (s : Sweep) : Type 0 where
    pub amounts : add s.order.amount s.order.filled_amount ≡ add order.amount order.filled_amount
    pub left : less_than s.order.amount zero_decimal ≡ false

  -- The same of the quote amount of a market buy order.
  pub record SpendsQuote (order : Order) (s : Sweep) : Type 0 where
    pub quotes :
        add s.order.quote_amount s.order.filled_quote_amount
        ≡ add order.quote_amount order.filled_quote_amount
    pub left : less_than s.order.quote_amount zero_decimal ≡ false

  gain : (q t f : Decimal) → add (add q t) f ≡ add t (add f q)
  gain q t f = ap (λ x. add x f) (add_comm q t) ∙ add_assoc t q f ∙ ap (add t) (add_comm q f)

  -- The supply after one more trade.
  supply_step :
      {taken kept : OrderBook → Tree (Deque Order)} {book : OrderBook} {order : Order} {f : Fill}
      (d : Decimal)
      → Takes taken kept book order f
      → d ≡ add (side_total taken book) order.filled_amount
      → f.order.filled_amount ≡ add order.filled_amount f.quantity
      → d ≡ add (side_total taken f.book) f.order.filled_amount
  supply_step {taken} {kept} {book} {order} {f} d t h e =
      h
      ∙ ap (λ x. add x order.filled_amount) t.side_total
      ∙ gain f.quantity (side_total taken f.book) order.filled_amount
      ∙ ap (add (side_total taken f.book)) (sym e)

  Supplies-step :
      {taken kept : OrderBook → Tree (Deque Order)} {book : OrderBook} {order : Order}
      {s s' : Sweep} {f : Fill} {l : Loop}
      → Supplies taken kept book order s
      → Takes taken kept s.book s.order f
      → Recorded l s f s'
      → f.order.filled_amount ≡ add s.order.filled_amount f.quantity
      → f.order ≡ record s.order {
        amount = f.order.amount;
        quote_amount = f.order.quote_amount;
        filled_amount = f.order.filled_amount;
        filled_quote_amount = f.order.filled_quote_amount;
      }
      → Supplies taken kept book order s'
  Supplies-step {taken} {kept} {book} {order} {s} {s'} {f} h t rec e same = record {
    valid = rw rec.book_lem (t.valid h.valid);
    other_side = rw rec.book_lem (t.other_side ∙ h.other_side);
    supply = rw (rec.book_lem, rec.order_lem) (supply_step _ t h.supply e);
    same_order = rw rec.order_lem (same ∙ ap (reset f.order) h.same_order);
  }
    where
      reset : Order → Order → Order
      reset a o = record o {
        amount = a.amount;
        quote_amount = a.quote_amount;
        filled_amount = a.filled_amount;
        filled_quote_amount = a.filled_quote_amount;
      }

  SpendsBase-step :
      {order : Order} {s s' : Sweep} {f : Fill} {l : Loop}
      → SpendsBase order s
      → Recorded l s f s'
      → less_than s.order.amount f.quantity ≡ false
      → f.order.amount ≡ sub s.order.amount f.quantity
      → f.order.filled_amount ≡ add s.order.filled_amount f.quantity
      → SpendsBase order s'
  SpendsBase-step {order} {s} {s'} {f} h rec fits a b = record {
    amounts =
        rw (rec.order_lem, a, b)
          (add_transfer s.order.amount s.order.filled_amount f.quantity ∙ h.amounts);
    left = rw (rec.order_lem, a) (less-sub-zero s.order.amount f.quantity ∙ fits);
  }

  SpendsQuote-step :
      {order : Order} {s s' : Sweep} {f : Fill} {l : Loop}
      → SpendsQuote order s
      → Recorded l s f s'
      → is_positive f.price ≡ true
      → less_than (quo s.order.quote_amount f.price) f.quantity ≡ false
      → f.order ≡ pay_quote s.order f.price f.quantity
      → SpendsQuote order s'
  unfolding pay_quote
  SpendsQuote-step {order} {s} {s'} {f} h rec priced fits e =
      let cost = mul f.price f.quantity in
      record {
        quotes =
            rw (rec.order_lem, e)
              (add_transfer s.order.quote_amount s.order.filled_quote_amount cost ∙ h.quotes);
        left =
            rw (rec.order_lem, e)
              (less-sub-zero s.order.quote_amount cost
                ∙ le_trans cost (mul f.price (quo s.order.quote_amount f.price))
                    s.order.quote_amount
                    (le-mul f.price f.quantity (quo s.order.quote_amount f.price) priced fits)
                    (mul-quo s.order.quote_amount f.price priced h.left));
      }

  abbrev Keeps : Loop → (Sweep → Type 0) → Type 0
  Keeps l P =
      (budget : ℕ) (s s' : Sweep) (f : Fill)
      → P s
      → l.wants s.order ≡ true
      → (0 < budget → s.trades < budget)
      → l.round s.book s.order ≡ some f
      → Recorded l s f s'
      → P s'

  module _ (book : OrderBook) (order : Order) where
    abbrev pub Bought : Sweep → Type 0
    Bought s = Supplies sells buys book order s × SpendsBase order s

    abbrev pub Sold : Sweep → Type 0
    Sold s = Supplies buys sells book order s × SpendsBase order s

    abbrev pub BoughtForQuote : Sweep → Type 0
    BoughtForQuote s = Supplies sells buys book order s × SpendsQuote order s

    match_buy-Keeps : Keeps match_buy Bought
    unfolding take_base
    match_buy-Keeps budget s s' f (h, k) w b e rec =
        let (t, limit, fits, after, runs_out) = match_buy-BuyRound s.book s.order f e in
        (
          Supplies-step h t rec (rw after) (rw after),
          SpendsBase-step k rec fits (rw after) (rw after),
        )

    match_sell-Keeps : Keeps match_sell Sold
    unfolding take_base
    match_sell-Keeps budget s s' f (h, k) w b e rec =
        let (t, limit, fits, after, runs_out) = match_sell-SellRound s.book s.order f e in
        (
          Supplies-step h t rec (rw after) (rw after),
          SpendsBase-step k rec fits (rw after) (rw after),
        )

    match_market_sell-Keeps : Keeps match_market_sell Sold
    unfolding take_base earn_quote
    match_market_sell-Keeps budget s s' f (h, k) w b e rec =
        let (t, fits, after, runs_out) = match_market_sell-MarketSellRound s.book s.order f e in
        (
          Supplies-step h t rec (rw after) (rw after),
          SpendsBase-step k rec fits (rw after) (rw after),
        )

    match_market_buy-Keeps : Keeps match_market_buy BoughtForQuote
    unfolding pay_quote
    match_market_buy-Keeps budget s s' f (h, k) w b e rec =
        let (t, fits, after) = match_market_buy-MarketBuyRound s.book s.order f e in
        (
          Supplies-step h t rec (rw after) (rw after),
          SpendsQuote-step k rec (t.priced h.valid) fits after,
        )

  -- What the loop of the order's side and type conserves.
  abbrev pub Conserved : OrderBook → Order → Sweep → Type 0
  Conserved book order s =
      (order.side ≡ buy → is_market order.order_type ≡ true → BoughtForQuote book order s)
      × (order.side ≡ buy → is_market order.order_type ≡ false → Bought book order s)
      × (order.side ≡ sell → Sold book order s)

  start_Supplies :
      (taken kept : OrderBook → Tree (Deque Order)) (book : OrderBook) (order : Order)
      (em : Emitter)
      → BookIsValid book
      → Supplies taken kept book order (sweep_of book order em)
  start_Supplies taken kept book order em v = record {
    valid = v;
    other_side = refl;
    supply = refl;
    same_order = refl;
  }

  -- What the run of an order's loop has kept, whichever of the four it is.
  module _ (book : OrderBook) (order : Order) (em : Emitter) (budget : ℕ) (s : Sweep) (d : Bool)
      (v : BookIsValid book) (e : match_slice book order em budget ≡ some (returns (s, d))) where
    slice_of :
        (l : Loop) (P : Sweep → Type 0)
        → loop_for order.side order.order_type ≡ some l
        → Keeps l P
        → P (sweep_of book order em)
        → P s
    slice_of l P n keep start =
        (loop_inv l budget P (keep budget) (resting_orders book + 2) (sweep_of book order em) s d
          (sym (match_slice_loop book order em budget l n) ∙ e) start).0

    base_start :
        less_than order.amount zero_decimal ≡ false → SpendsBase order (sweep_of book order em)
    base_start h = record { amounts = refl; left = h }

    quote_start :
        less_than order.quote_amount zero_decimal ≡ false
        → SpendsQuote order (sweep_of book order em)
    quote_start h = record { quotes = refl; left = h }

  -- On a valid book, and for an order whose amounts are not negative, every slice of a sweep, however
  -- small its budget, keeps the book valid, leaves the incoming order's own side alone, moves base
  -- amount from the resting orders of the other side to the incoming order and loses none, keeps
  -- what is left and what is filled of the incoming order adding up, and never takes more than it
  -- had: base amount for limit orders and market sells, quote amount for market buys.
  pub match_slice-Conserved :
      (book : OrderBook) (order : Order) (em : Emitter) (budget : ℕ) (s : Sweep) (d : Bool)
      → BookIsValid book
      → less_than order.amount zero_decimal ≡ false
      → less_than order.quote_amount zero_decimal ≡ false
      → match_slice book order em budget ≡ some (returns (s, d))
      → Conserved book order s
  match_slice-Conserved book order em budget s d v amount quote e = (
    λ b m.
        slice_of book order em budget s d v e match_market_buy (BoughtForQuote book order)
          (loop_for_buy order.side order.order_type b ∙ rw m) (match_market_buy-Keeps book order)
          (bought, quote_start book order em budget s d v e quote),
    λ b m.
        slice_of book order em budget s d v e match_buy (Bought book order)
          (loop_for_buy order.side order.order_type b ∙ rw m) (match_buy-Keeps book order)
          (bought, base),
    λ b. elim (Bool-cases (is_market order.order_type)) [
      | inl m ↦
          slice_of book order em budget s d v e match_market_sell (Sold book order)
            (loop_for_sell order.side order.order_type b ∙ rw m)
            (match_market_sell-Keeps book order) (sold, base)
      | inr m ↦
          slice_of book order em budget s d v e match_sell (Sold book order)
            (loop_for_sell order.side order.order_type b ∙ rw m) (match_sell-Keeps book order)
            (sold, base)
    ],
  )
    where
      bought : Supplies sells buys book order (sweep_of book order em)
      bought = start_Supplies sells buys book order em v

      sold : Supplies buys sells book order (sweep_of book order em)
      sold = start_Supplies buys sells book order em v

      base : SpendsBase order (sweep_of book order em)
      base = base_start book order em budget s d v e amount
