-- ===== src/Ladder/Prices.antt =====
-- `AddOrdersAtPrice` of exchange/matcher/MEOrderBook.cpp and trading/strategy/MarketOrderBook.cpp
-- against the insertion of a price into the list of its side.
use mathlib.Core.Path.{subst}
use low_latency.Prelude.{
  ◌∉◌, ℕ, ◌≡◌, ◌≤◌, refl, sym, ap, some, none, List, [], ◌∷◌, arith, Bool, true, false, not, when,
  length, check_fatal, ◌>>=◌,
}
use low_latency.Prelude.Ensures.{Returns, returns, total_after, total_bind, total_true, total_false}
use low_latency.Common.Types.{Side}
use low_latency.Ladder.{
  Ladder, with_head, set_object, set_level, read_level, link_before, find_place,
  add_orders_at_price, get_orders_at_price, with_orders_at_price, is_null,
}
use low_latency.Ladder.Rings.{last}
use low_latency.Ladder.Distinct.{insert_level, insert_level-nil, AreDistinct-swap}
use low_latency.Ladder.Levels.{
  level_at, HasLevels, SameLevels, SameOutside, linked, linked-SameLevels, linked-SameOutside,
  link_before_lem,
}
use low_latency.Ladder.Insertion.{goes_before}
use low_latency.Ladder.Heads.{Searched, find_place-Searched}

module _ {O : Type 0} where
  -- The levels `ns` of a side have become `ms`; nothing but links and the head of the side differs.
  abbrev pub Became : Side → (touched ms : List ℕ) → (s u : Ladder O) → Type 0
  Became side touched ms s u = HasLevels side ms u × SameLevels s u × SameOutside side touched s u

  -- After the search: a level that found no place goes to the end.
  close :
      (side : Side) (price new h : ℕ) (rest : List ℕ) (s : Ladder O)
      → new ∉ (h ∷ rest)
      → HasLevels side (h ∷ rest) s
      → (b : Bool) (u : Ladder O) → Searched side price new (h ∷ rest) s b u
      → Returns
          (λ _.
            Became side (new ∷ h ∷ rest) (insert_level (goes_before side price s) new (h ∷ rest)) s)
          (when (not b) (link_before (some h) (some new)) u)
  close side price new h rest s fresh ring true u placed = returns placed
  close side price new h rest s fresh (at_head, d, r) false u (unchanged, at_end) =
      let (runs, r') = link_before_lem h rest new s d fresh r in
      subst
        (λ v.
          Returns
            (λ _.
              Became side (new ∷ h ∷ rest) (insert_level (goes_before side price s) new (h ∷ rest))
                s)
            (link_before (some h) (some new) v))
        (sym unchanged)
        (subst
          (λ x.
            Returns
              (λ _.
                Became side (new ∷ h ∷ rest)
                  (insert_level (goes_before side price s) new (h ∷ rest)) s)
              x)
          (sym runs)
          (returns (
            subst (λ l. HasLevels side l (linked (last h rest) h new s)) (sym at_end)
                (at_head, AreDistinct-swap (new ∷ []) (h ∷ rest) (fresh, d), r'),
            linked-SameLevels (last h rest) h new s,
            linked-SameOutside side (h ∷ rest) h rest new s λ i k. k,
          )))

  -- The only level of a side.
  alone :
      (side : Side) (n : ℕ) (s : Ladder O)
      → let w : Ladder O = with_head side (some n) s in
        Became side (n ∷ []) (n ∷ []) s (record w {
          orders_at_price_pool =
              set_object
                (λ l. record l { prev_entry = some n; next_entry = some n })
                n
                w.orders_at_price_pool;
        })
  alone side n s = (
    (ground arith, (refl, tt), (ground arith, ground arith)),
    record {
      same_side = λ i. ground arith;
      same_price = λ i. ground arith;
      same_first = λ i. ground arith;
      same_free = λ i. ground arith;
      same_size = ground arith;
      same_table = ground arith;
      same_orders = ground arith;
    },
    record {
      same_next = λ i h. ground arith;
      same_prev = λ i h. ground arith;
      same_head = λ other h. ground arith;
    },
  )

  -- Adding
  pub add_orders_at_price-levels :
      (ns : List ℕ) (n : ℕ) (s : Ladder O)
      → get_orders_at_price (level_at s n).price s ≡ none
      → HasLevels (level_at s n).side ns s
      → n ∉ ns
      → length ns ≤ s.orders_at_price_pool.size
      → Returns
          (λ _.
            Became
              (level_at s n).side
              (n ∷ ns)
              (insert_level (goes_before (level_at s n).side (level_at s n).price s) n ns)
              (with_orders_at_price (level_at s n).price (some n) s))
          (add_orders_at_price (some n) s)
  unfolding add_orders_at_price read_level set_level
  add_orders_at_price-levels [] n s free empty fresh room =
      total_after _ (ap (λ p. check_fatal (is_null p) s) free) (
        total_true _ _ (ap is_null empty) (
          returns (
            rw insert_level-nil (
              alone (level_at s n).side n (with_orders_at_price (level_at s n).price (some n) s)))))
  add_orders_at_price-levels (h ∷ rest) n s free (at_head, d, r) fresh room =
      let side = (level_at s n).side in
      let price = (level_at s n).price in
      let t : Ladder O = with_orders_at_price price (some n) s in
      total_after _ (ap (λ p. check_fatal (is_null p) s) free) (
        total_false _ _ (ap is_null at_head) (
          subst
            (λ p.
              Returns
                (λ _.
                  Became side (n ∷ h ∷ rest) (insert_level (goes_before side price s) n (h ∷ rest))
                    t)
                ((find_place s.orders_at_price_pool.size side price (some n) p p >>= λ found.
                    when (not found) (link_before p (some n)))
                  t))
            (sym at_head)
            (total_bind _
              (find_place-Searched s.orders_at_price_pool.size side price n h rest t room fresh
                (at_head, d, r))
              (close side price n h rest t fresh (at_head, d, r)))))
