-- ===== src/Trading/PositionKeeper.antt =====
-- trading/strategy/PositionKeeper.h: position, volume and profit of each ticker. `bbo`, a pointer
-- that only the text of a position reads, is left out. The constructor sets neither `openVWAP` nor
-- `volume`: a new position has any.
pub mod Range
pub mod History
use Prim.Native.Nat.{min}
use low_latency.Prelude.{
  ℕ, ◌+◌, ◌*◌, Bool, not, ◌==◌, ◌&&◌, ltb, if◌then◌else◌, update, Run, Cmd, ok, fault, out_of_range,
  put_back,
}
use low_latency.Prelude.Int.{
  ℤ, pos, negsuc, mul32, abs, abs32, is_negative, signed32, word32, word64,
}
use low_latency.Common.Types.{Side, u32, u64, is_buy, side_to_index, side_to_value, price_invalid}
use low_latency.Common.Limits.{me_max_tickers}
use low_latency.Common.Double.{Double}
use low_latency.Common.Messages.{MeClientResponse}
use low_latency.Trading.MarketOrderBook.{BestBidOffer}

pub record PositionInfo (F : Type 0) : Type 0 where
  pub position : ℤ
  pub realized_pnl : F
  pub unrealized_pnl : F
  pub total_pnl : F
  pub open_vwap : ℕ → F
  pub volume : ℕ

-- `position += executed_quantity * sideValue`: the sum is one of `unsigned`, and goes back to `int`.
unfoldable pub next_position : ℤ → (executed : ℕ) → Side → ℤ
next_position position executed side =
    signed32 (u32 (word32 position + u32 (executed * word32 (side_to_value side))))

abbrev pub opposite_index : Side → ℕ
opposite_index side = side_to_index (if is_buy side then Side.sell else Side.buy)

module _ {F : Type 0} (double : Double F) where
  open double use {of_nat, of_int, plus, minus, times, over, half, eq}

  abbrev magnitude : ℤ → F
  magnitude a = of_int (abs32 a)

  -- The branch for a fill on the side of the open position, or with no position.
  unfoldable pub extend : MeClientResponse → PositionInfo F → PositionInfo F
  extend r p =
      let i = side_to_index r.side in
      record p {
        open_vwap =
            update p.open_vwap i
              (plus (p.open_vwap i) (of_nat (u64 (r.price * r.executed_quantity))));
      }

  -- The branch that closes some of the position `old`, or turns it round.
  unfoldable pub reduce : (old : ℤ) → MeClientResponse → PositionInfo F → PositionInfo F
  reduce old r p =
      let side = side_to_index r.side in
      let inverse = opposite_index r.side in
      let old_price : F = over (p.open_vwap inverse) (magnitude old) in
      let kept : ℕ → F = update p.open_vwap inverse (times old_price (magnitude p.position)) in
      let closed : ℤ = min_i32 (signed32 r.executed_quantity) (abs32 old) in
      record p {
        open_vwap =
            if is_negative (mul32 p.position old)
            then update (update kept side (of_nat (u64 (r.price * word64 (abs32 p.position)))))
                inverse (of_nat 0)
            else kept;
        realized_pnl =
            times (times (of_int closed) (minus old_price (of_nat r.price)))
              (of_int (side_to_value r.side));
      }
    where
      min_i32 : ℤ → ℤ → ℤ
      min_i32 (pos a) (pos b) = pos (min a b)
      min_i32 (pos a) (negsuc b) = negsuc b
      min_i32 (negsuc a) (pos b) = negsuc a
      min_i32 (negsuc a) (negsuc b) = if ltb a b then negsuc b else negsuc a

  -- The profit of the open position at a price; both branches read the price of the buys.
  unfoldable pub unrealized : (price : F) → PositionInfo F → F
  unrealized price p =
      let average = over (p.open_vwap (side_to_index Side.buy)) (magnitude p.position) in
      if is_negative p.position
      then times (minus average price) (magnitude p.position)
      else times (minus price average) (magnitude p.position)

  -- The last `if` of `AddFill`.
  unfoldable pub revalue : MeClientResponse → PositionInfo F → PositionInfo F
  unfolding unrealized
  revalue r p =
      if abs p.position == 0
      then record p {
        open_vwap =
            update (update p.open_vwap (side_to_index Side.buy) (of_nat 0))
              (side_to_index Side.sell) (of_nat 0);
        unrealized_pnl = of_nat 0;
      }
      else record p { unrealized_pnl = unrealized (of_nat r.price) p }

  unfoldable pub total : PositionInfo F → PositionInfo F
  total p = record p { total_pnl = plus p.unrealized_pnl p.realized_pnl }

  -- `PositionInfo::AddFill`; `Side::MAX` would index past the end of `openVWAP`.
  unfoldable pub add_fill : MeClientResponse → Cmd (PositionInfo F) (Unit {0})
  unfolding extend reduce revalue total next_position
  add_fill r p =
      let old = p.position in
      let moved : PositionInfo F = record p {
        position = next_position old r.executed_quantity r.side;
        volume = u32 (p.volume + r.executed_quantity);
      } in
      if ltb (side_to_index r.side) 3
      then ok tt (
          total (
            revalue r (
              if is_negative (mul32 old (side_to_value r.side))
              then reduce old r moved
              else extend r moved)))
      else fault out_of_range

  -- `PositionInfo::UpdateBestBidOffer`
  unfoldable pub update_best_bid_offer : BestBidOffer → PositionInfo F → PositionInfo F
  unfolding unrealized total
  update_best_bid_offer b p =
      if not (abs p.position == 0)
        && not (b.bid_price == price_invalid)
        && not (b.ask_price == price_invalid)
      then total (record p {
        unrealized_pnl = unrealized (times (of_nat (u64 (b.bid_price + b.ask_price))) half) p;
      })
      else p

  -- `PositionKeeper::AddFill` and `PositionKeeper::UpdateBestBidOffer`: the ticker is an index.
  unfoldable pub keeper_add_fill : MeClientResponse → Cmd (ℕ → PositionInfo F) (Unit {0})
  unfolding add_fill
  keeper_add_fill r ps =
      if ltb r.ticker_id me_max_tickers
      then put r.ticker_id (add_fill r (ps r.ticker_id))
      else fault out_of_range
    where
      put : ℕ → Run (PositionInfo F) (Unit {0}) → Run (ℕ → PositionInfo F) (Unit {0})
      put i = put_back (update ps i)

  unfoldable pub keeper_update_best_bid_offer :
      (ticker : ℕ) → BestBidOffer → Cmd (ℕ → PositionInfo F) (Unit {0})
  unfolding update_best_bid_offer
  keeper_update_best_bid_offer ticker b ps =
      if ltb ticker me_max_tickers
      then ok tt (update ps ticker (update_best_bid_offer b (ps ticker)))
      else fault out_of_range
