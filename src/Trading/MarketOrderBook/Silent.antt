-- ===== src/Trading/MarketOrderBook/Silent.antt =====
-- `OnMarketUpdate` of trading/strategy/MarketOrderBook.cpp never finds a best price.
use low_latency.Prelude.{
  ℕ, zero, suc, refl, Bool, false, none, some, Ptr, Cmd, pure, ◌>>=◌, ◌+◌, ◌&&◌, leb,
}
use low_latency.Prelude.Ensures.{Ensures, done, stopped, unfinished, Keeps}
use low_latency.Prelude.Ensures
use low_latency.Common.Types.{is_buy, is_sell}
use low_latency.Common.Messages.{MarketUpdateType, MeMarketUpdate}
use low_latency.Common.MemoryPool.{deallocate}
use low_latency.Ladder.{same_ptr, read_level, on_orders}
use low_latency.Ladder.Unlinked.{
  AllUnlinked, Unlinked, read_level-Keeps, levels-Keeps, allocate-AllUnlinked,
  deallocate-AllUnlinked, set_order-Unlinked,
}
use low_latency.Trading.MarketOrderBook.{MarketOrderBook, on_ladder}
use low_latency.Trading.MarketOrderBook.Updates.{
  bid_updated, ask_updated, free_orders, free_levels, free_side, clear, apply,
}
use low_latency.Trading.MarketOrderBook.NoPrice.{
  NoPrice, ladder-Keeps, orders-Keeps, find_order-Keeps, add_order-Keeps, remove_order-Keeps,
}

pub bid_updated-Keeps : (u : MeMarketUpdate) → Keeps NoPrice (bid_updated u)
unfolding bid_updated read_level
bid_updated-Keeps u b h = go b.ladder.bids_by_price
  where
    go :
        (p : Ptr)
        → Ensures
            (λ _ t. NoPrice t)
            ((elim p as (λ _. Cmd MarketOrderBook Bool) [
              | none ↦ pure false
              | some i ↦ on_ladder (read_level (some i)) >>= λ l.
                  pure (is_buy u.side && leb l.price u.price)
            ])
              b)
    go none = done h
    go (some i) = done h

pub ask_updated-Keeps : (u : MeMarketUpdate) → Keeps NoPrice (ask_updated u)
unfolding ask_updated read_level
ask_updated-Keeps u b h = go b.ladder.asks_by_price
  where
    go :
        (p : Ptr)
        → Ensures
            (λ _ t. NoPrice t)
            ((elim p as (λ _. Cmd MarketOrderBook Bool) [
              | none ↦ pure false
              | some i ↦ on_ladder (read_level (some i)) >>= λ l.
                  pure (is_sell u.side && leb u.price l.price)
            ])
              b)
    go none = done h
    go (some i) = done h

free_orders-Keeps : (n i : ℕ) → Keeps NoPrice (free_orders n i)
unfolding free_orders
free_orders-Keeps zero i b h = done h
free_orders-Keeps (suc n) i b h =
    Ensures.bind (one (b.order_id_to_order i)) λ _ b₁ h₁. free_orders-Keeps n (i + 1) b₁ h₁
  where
    one :
        (p : Ptr)
        → Ensures
            (λ _ t. NoPrice t)
            ((elim p as (λ _. Cmd MarketOrderBook (Unit {0})) [
              | none ↦ pure tt
              | some p ↦ on_ladder (on_orders (deallocate (some p)))
            ])
              b)
    one none = done h
    one (some p) = ladder-Keeps _ (orders-Keeps _ (deallocate-AllUnlinked (some p))) b h

free_levels-Keeps : (fuel : ℕ) (head at : Ptr) → Keeps Unlinked (free_levels fuel head at)
unfolding free_levels
free_levels-Keeps zero head at s h = unfinished
free_levels-Keeps (suc fuel) head at s h = Ensures.branch (same_ptr at head) _ _ s (done h) (
    Ensures.bind (levels-Keeps AllUnlinked (deallocate at) s h) λ _ s₁ h₁.
      Ensures.bind (read_level-Keeps AllUnlinked at s₁ h₁)
        λ l s₂ h₂. free_levels-Keeps fuel head l.next_entry s₂ h₂)

free_side-Keeps : (head : Ptr) → Keeps Unlinked (free_side head)
unfolding free_side read_level
free_side-Keeps none s h = done h
free_side-Keeps (some i) s h =
    Ensures.bind
      (free_levels-Keeps (suc s.orders_at_price_pool.size) (some i)
        (s.orders_at_price_pool.store i).object.next_entry s h)
      λ _ s₂ h₂. levels-Keeps AllUnlinked (deallocate (some i)) s₂ h₂

clear-Keeps : Keeps NoPrice clear
unfolding clear
clear-Keeps b h = Ensures.bind (free_orders-Keeps 1024 0 b h) λ _ b₁ h₁.
    Ensures.bind
      (ladder-Keeps _ (free_side-Keeps b₁.ladder.bids_by_price)
        (record b₁ { order_id_to_order = λ _. none })
        (record { unlinked = h₁.unlinked; no_bid = h₁.no_bid; no_ask = h₁.no_ask }))
      λ _ b₂ h₂.
        Ensures.bind
          (ladder-Keeps _ (free_side-Keeps b₂.ladder.asks_by_price)
            (record b₂ { ladder = record (b₂.ladder) { bids_by_price = none } })
            (record { unlinked = h₂.unlinked; no_bid = h₂.no_bid; no_ask = h₂.no_ask }))
          λ _ b₃ h₃.
            done (record { unlinked = h₃.unlinked; no_bid = h₃.no_bid; no_ask = h₃.no_ask })

pub apply-Keeps : (type : MarketUpdateType) (u : MeMarketUpdate) → Keeps NoPrice (apply type u)
unfolding apply
apply-Keeps MarketUpdateType.add u b h =
    Ensures.bind (ladder-Keeps _ (orders-Keeps _ (allocate-AllUnlinked _ (refl, refl))) b h)
      λ order b₁ h₁. add_order-Keeps order b₁ h₁
apply-Keeps MarketUpdateType.modify u b h =
    Ensures.bind (find_order-Keeps u.order_id b h)
      λ order b₁ h₁. ladder-Keeps _ (set_order-Unlinked order _ (λ x v. v)) b₁ h₁
apply-Keeps MarketUpdateType.cancel u b h =
    Ensures.bind (find_order-Keeps u.order_id b h) λ order b₁ h₁. remove_order-Keeps order b₁ h₁
apply-Keeps MarketUpdateType.clear u b h = clear-Keeps b h
apply-Keeps MarketUpdateType.invalid u b h = done h
apply-Keeps MarketUpdateType.trade u b h = done h
apply-Keeps MarketUpdateType.snapshot_start u b h = done h
apply-Keeps MarketUpdateType.snapshot_end u b h = done h
