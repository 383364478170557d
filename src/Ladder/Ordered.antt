-- ===== src/Ladder/Ordered.antt =====
-- The order of the prices that `AddOrder` of exchange/matcher/MEOrderBook.cpp leaves on a side.
use low_latency.Prelude.{
  ◌∈◌, ◌∉◌, ne_of_mem, ℕ, ◌≡◌, ◌≤◌, refl, ap, none, some, List, [], ◌∷◌, arith, true, false, length,
  map, Bool-cases, inl, inr,
}
use mathlib.Core.Path.{subst}
use low_latency.Prelude.Ensures.{Returns, total_mono}
use low_latency.Common.MemoryPool.Allocation.{HasSpare}
use low_latency.Common.Types.{Side}
use low_latency.Ladder.{Priced, Ladder, link_order, get_orders_at_price, should_insert}
use low_latency.Ladder.Distinct.{
  insert_level, insert_level-here, insert_level-past, insert_level-nil, insert_level-same,
}
use low_latency.Ladder.Levels.{level_at, HasLevels}
use low_latency.Ladder.Insertion.{goes_before}
use low_latency.Ladder.Entering.{link_order-levels}

-- Two prices in the order that the code gives them: asks descend, bids (and all that is no sell)
-- ascend.
abbrev pub IsBefore : Side → (p q : ℕ) → Type 0
IsBefore Side.sell p q = q ≤ p
IsBefore _ p q = p ≤ q

abbrev pub AreOrdered : Side → List ℕ → Type 0
AreOrdered side [] = Unit
AreOrdered side (p ∷ []) = Unit
AreOrdered side (p ∷ q ∷ l) = IsBefore side p q × AreOrdered side (q ∷ l)

inserted-IsBefore : (side : Side) (p q : ℕ) → should_insert side p q ≡ true → IsBefore side p q
inserted-IsBefore Side.buy p q h = ground (arith, h)
inserted-IsBefore Side.sell p q h = ground (arith, h)
inserted-IsBefore Side.invalid p q h = ground (arith, h)
inserted-IsBefore Side.max p q h = ground (arith, h)

passed-IsBefore : (side : Side) (p q : ℕ) → should_insert side q p ≡ false → IsBefore side p q
passed-IsBefore Side.buy p q h = ground (arith, h)
passed-IsBefore Side.sell p q h = ground (arith, h)
passed-IsBefore Side.invalid p q h = ground (arith, h)
passed-IsBefore Side.max p q h = ground (arith, h)

insert_level-AreOrdered :
    (side : Side) (price : ℕ) (price_at : ℕ → ℕ) (new : ℕ) (ns : List ℕ)
    → price_at new ≡ price
    → AreOrdered side (map price_at ns)
    → AreOrdered side
        (map price_at (insert_level (λ i. should_insert side price (price_at i)) new ns))
insert_level-AreOrdered side price price_at new [] e h = rw insert_level-nil tt
insert_level-AreOrdered side price price_at new (x ∷ []) e h =
    elim (Bool-cases (should_insert side price (price_at x))) [
      | inl b ↦
          rw (insert_level-here (λ i. should_insert side price (price_at i)) new x [] b)
            (rw e (inserted-IsBefore side price (price_at x) b), tt)
      | inr b ↦
          rw
            (
              insert_level-past (λ i. should_insert side price (price_at i)) new x [] b,
              insert_level-nil,
            )
            (rw e (passed-IsBefore side (price_at x) price b), tt)
    ]
insert_level-AreOrdered side price price_at new (x ∷ y ∷ ys) e (h, k) =
    elim (Bool-cases (should_insert side price (price_at x))) [
      | inl b ↦
          rw (insert_level-here (λ i. should_insert side price (price_at i)) new x (y ∷ ys) b)
            (rw e (inserted-IsBefore side price (price_at x) b), (h, k))
      | inr b ↦
          rw (insert_level-past (λ i. should_insert side price (price_at i)) new x (y ∷ ys) b)
            (elim (Bool-cases (should_insert side price (price_at y))) [
              | inl c ↦
                  rw (insert_level-here (λ i. should_insert side price (price_at i)) new y ys c) (
                    rw e (passed-IsBefore side (price_at x) price b),
                    (rw e (inserted-IsBefore side price (price_at y) c), k),
                  )
              | inr c ↦
                  let past =
                    insert_level-past (λ i. should_insert side price (price_at i)) new y ys c in
                  rw past
                    (h, rw past at (insert_level-AreOrdered side price price_at new (y ∷ ys) e k))
            ])
    ]

map-same : (f g : ℕ → ℕ) (ns : List ℕ) → ((i : ℕ) → i ∈ ns → f i ≡ g i) → map f ns ≡ map g ns
map-same f g [] same = refl
map-same f g (n ∷ ns) same =
    let tail = map-same f g ns λ i h. same i (ground arith) in
    let first : f n ≡ g n = same n (ground arith) in λ k. first k ∷ tail k

module _ {O : Type 0} where
  abbrev pub price_at : Ladder O → ℕ → ℕ
  price_at s i = (level_at s i).price

module _ {O : Type 0} ⦃priced : Priced O⦄ where
  open priced use {side_of, price_of}

  -- `AddOrder` of the first order at a price, under the conditions that the next block of the pool
  -- of prices is free and another one too, the price is not in the table, and the side has the
  -- levels `ns`, at most as many as the pool has blocks and none of them the next block, keeps the
  -- prices of the side in order: if those of `ns` ascended from the head on, for asks descended,
  -- so do those of the levels after it.
  pub link_order-AreOrdered :
      (i : ℕ) (ns : List ℕ) (s : Ladder O)
      → HasSpare s.orders_at_price_pool
      → get_orders_at_price (price_of (s.orders_pool.store i).object.order) s ≡ none
      → HasLevels (side_of (s.orders_pool.store i).object.order) ns s
      → s.orders_at_price_pool.next_free_index ∉ ns
      → length ns ≤ s.orders_at_price_pool.size
      → AreOrdered (side_of (s.orders_pool.store i).object.order) (map (price_at s) ns)
      → Returns
          (λ _ t.
            let o = (s.orders_pool.store i).object.order in
            let ms =
              insert_level
                (goes_before (side_of o) (price_of o) s)
                s.orders_at_price_pool.next_free_index
                ns in
            HasLevels (side_of o) ms t × AreOrdered (side_of o) (map (price_at t) ms))
          (link_order (some i) s)
  link_order-AreOrdered i ns s spare unused levels fresh room ordered =
      total_mono (link_order-levels i ns s spare unused levels fresh room) λ _ t has.
        let o = (s.orders_pool.store i).object.order in
        let n = s.orders_at_price_pool.next_free_index in
        let same = λ (m : ℕ) (h : m ∈ ns). (has.others m (ne_of_mem ns h fresh)).0 in
        let kept = map-same (price_at t) (price_at s) ns same in
        (
          has.levels,
          subst (λ l. AreOrdered (side_of o) (map (price_at t) l))
              (insert_level-same (λ m. should_insert (side_of o) (price_of o) (price_at t m))
                (goes_before (side_of o) (price_of o) s) n ns
                λ m h. ap (should_insert (side_of o) (price_of o)) (same m h))
              (insert_level-AreOrdered (side_of o) (price_of o) (price_at t) n ns has.price
                (rw kept ordered)),
        )
