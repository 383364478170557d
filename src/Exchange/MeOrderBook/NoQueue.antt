-- ===== src/Exchange/MeOrderBook/NoQueue.antt =====
-- No two orders ever rest at one price of a book: every operation that ends leaves each order
-- without neighbours, and a second order at a price stops the engine.
use low_latency.Prelude.{
  ℕ, zero, suc, ◌≡◌, refl, Bool, not, ◌&&◌, none, some, ◌==◌, ltb, Bool-cases, Option-cases, inl,
  inr, arith, Ptr, Cmd, ok, fault, null_pointer,
}
use low_latency.Prelude.Ensures.{Ensures, done, stopped, unfinished, Keeps}
use low_latency.Prelude.Ensures
use low_latency.Common.Types.{Side}
use low_latency.Common.MemoryPool.{MemoryPool}
use low_latency.Ladder.{
  OrdersAtPrice, Linked, Ladder, read_level, read_order, is_null, get_orders_at_price, on_orders,
}
use low_latency.Ladder.Unlinked.{
  AllUnlinked, Unlinked, read_level-Keeps, read_order-Unlinked, deallocate-AllUnlinked,
  link_order-Unlinked, unlink_order-Unlinked,
}
use low_latency.Exchange.MeOrderBook.{
  MeOrder, MeOrder-Priced, Desk, on_ladder, with_ladder, set_client_order, add_order, remove_order,
}
use low_latency.Exchange.MeOrderBook.Match.{match_loop, check_for_match}
use low_latency.Exchange.MeOrderBook.Add.{get_next_priority, order_to_string, level_to_string}

abbrev pub DeskUnlinked : Desk → Type 0
DeskUnlinked d = Unlinked d.book.ladder

pub ladder-Keeps :
    {A : Type 0} (m : Cmd (Ladder MeOrder) A) → Keeps Unlinked m → Keeps DeskUnlinked (on_ladder m)
ladder-Keeps m = Ensures.within-Keeps (λ d. d.book.ladder) with_ladder m (λ s h. h) (λ s t h k. k)

pub orders-Keeps :
    {A : Type 0} (m : Cmd (MemoryPool (Linked MeOrder)) A)
    → Keeps AllUnlinked m
    → Keeps Unlinked (on_orders m)
orders-Keeps m =
    Ensures.within-Keeps (λ s. s.orders_pool) (λ p s. record s { orders_pool = p }) m (λ s h. h)
      (λ s t h k. k)

pub read_order-Keeps : (p : Ptr) → Keeps Unlinked (read_order {O = MeOrder} p)
read_order-Keeps p s h = Ensures.mono (read_order-Unlinked p s h) λ x t k. k.1

set_client_order-Keeps :
    (client order : ℕ) (p : Ptr) → Keeps DeskUnlinked (set_client_order client order p)
unfolding set_client_order
set_client_order-Keeps client order p d h = elim (Bool-cases (ltb client 256 && ltb order 1024)) [
  | inl e ↦ rw e (done h)
  | inr e ↦ rw e stopped
]

pub add_order-Keeps : (p : Ptr) → Keeps DeskUnlinked (add_order p)
unfolding add_order
add_order-Keeps p d h = Ensures.bind (ladder-Keeps _ (link_order-Unlinked p) d h) λ _ d₁ h₁.
    Ensures.bind (ladder-Keeps _ (read_order-Keeps p) d₁ h₁)
      λ o d₂ h₂. set_client_order-Keeps o.order.client_id o.order.client_order_id p d₂ h₂

pub remove_order-Keeps : (p : Ptr) → Keeps DeskUnlinked (remove_order p)
unfolding remove_order
remove_order-Keeps p d h = Ensures.bind (ladder-Keeps _ (unlink_order-Unlinked p) d h) λ _ d₁ h₁.
    Ensures.bind (ladder-Keeps _ (read_order-Keeps p) d₁ h₁) λ o d₂ h₂.
      Ensures.bind (set_client_order-Keeps o.order.client_id o.order.client_order_id none d₂ h₂)
        λ _ d₃ h₃. ladder-Keeps _ (orders-Keeps _ (deallocate-AllUnlinked p)) d₃ h₃

match_loop-Keeps :
    (fuel : ℕ) (head : Desk → Ptr) (crosses : ℕ → Bool) (leaves : ℕ)
    → Keeps DeskUnlinked (match_loop fuel head crosses leaves)
unfolding match_loop
match_loop-Keeps zero head crosses leaves d h = unfinished
match_loop-Keeps (suc fuel) head crosses leaves d h =
    Ensures.branch (not (leaves == 0) && not (is_null (head d))) _ _ d
      (Ensures.bind (ladder-Keeps _ (read_level-Keeps AllUnlinked (head d)) d h) λ level d₁ h₁.
        Ensures.bind (ladder-Keeps _ (read_order-Keeps level.first_order) d₁ h₁) λ first d₂ h₂.
          Ensures.branch (crosses first.order.price) _ _ d₂
            (match_loop-Keeps fuel head crosses leaves d₂ h₂) (done h₂))
      (done h)

pub check_for_match-Keeps :
    (fuel : ℕ) (side : Side) (price qty : ℕ)
    → Keeps DeskUnlinked (check_for_match fuel side price qty)
unfolding check_for_match
check_for_match-Keeps fuel Side.buy price qty d h = match_loop-Keeps fuel _ _ qty d h
check_for_match-Keeps fuel Side.sell price qty d h = match_loop-Keeps fuel _ _ qty d h
check_for_match-Keeps fuel Side.invalid price qty d h = done h
check_for_match-Keeps fuel Side.max price qty d h = done h

-- Where a price has no level its next priority is 1.
pub get_next_priority-free :
    (price : ℕ) (d : Desk)
    → get_orders_at_price price d.book.ladder ≡ none
    → get_next_priority price d ≡ ok 1 d
unfolding get_next_priority
get_next_priority-free price d e = ground arith

-- Where it has one, the last order is read through the null link of the first.
pub get_next_priority-used :
    (price i : ℕ) (d : Desk)
    → DeskUnlinked d
    → get_orders_at_price price d.book.ladder ≡ some i
    → get_next_priority price d ≡ fault null_pointer
unfolding get_next_priority read_level read_order
get_next_priority-used price i d h e = go (level.first_order) refl
  where
    level : OrdersAtPrice
    level = (d.book.ladder.orders_at_price_pool.store i).object

    go : (p : Ptr) → level.first_order ≡ p → get_next_priority price d ≡ fault null_pointer
    go none f = ground arith
    go (some j) f = ground (arith, h j)

pub get_next_priority-Keeps : (price : ℕ) → Keeps DeskUnlinked (get_next_priority price)
get_next_priority-Keeps price d h = elim (Option-cases (get_orders_at_price price d.book.ladder)) [
  | inl e ↦ rw (get_next_priority-free price d e) (done h)
  | inr (i, e) ↦ rw (get_next_priority-used price i d h e) stopped
]

order_to_string-Keeps : (fuel : ℕ) (p : Ptr) → Keeps Unlinked (order_to_string fuel p)
unfolding order_to_string
order_to_string-Keeps zero p s h = unfinished
order_to_string-Keeps (suc fuel) none s h = done h
order_to_string-Keeps (suc fuel) (some i) s h =
    Ensures.bind (read_order-Keeps (some i) s h) λ o s₁ h₁.
      Ensures.bind (order_to_string-Keeps fuel o.prev_order s₁ h₁)
        λ _ s₂ h₂. order_to_string-Keeps fuel o.next_order s₂ h₂

pub level_to_string-Keeps : (fuel : ℕ) (p : Ptr) → Keeps Unlinked (level_to_string fuel p)
unfolding level_to_string
level_to_string-Keeps fuel p s h =
    Ensures.bind (read_level-Keeps AllUnlinked p s h)
      λ l s₁ h₁. order_to_string-Keeps fuel l.first_order s₁ h₁
