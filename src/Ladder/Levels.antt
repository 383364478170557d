-- ===== src/Ladder/Levels.antt =====
-- The prices of a side, `mBidsByPrice` or `mAsksByPrice` with the links of the levels, as a list of
-- levels, and what the four assignments of `AddOrdersAtPrice` do to it.
use low_latency.Prelude.{
  ◌∈◌, ◌∉◌, AreDistinct, ne_of_mem, ℕ, ◌≡◌, refl, some, none, List, [], ◌∷◌, ◌++◌, ◌==◌, arith, Ptr,
  ok, sym, ◌>>◌, ◌≢◌, ◌∙◌, eq-false, if◌then◌else◌,
}
use mathlib.Core.Path.{subst}
use low_latency.Common.Types.{Side, is_buy}
use low_latency.Ladder.{
  OrdersAtPrice, Ladder, set_object, head_of, link_before, read_level, set_level,
}
use low_latency.Ladder.Rings.{Trail, last, Trail-end, Trail-insert, Trail-redirect, last-mem}

module _ {O : Type 0} where
  abbrev pub level_at : Ladder O → ℕ → OrdersAtPrice
  level_at s i = (s.orders_at_price_pool.store i).object

  abbrev pub next_of : Ladder O → ℕ → Ptr
  next_of s i = (level_at s i).next_entry

  abbrev pub prev_of : Ladder O → ℕ → Ptr
  prev_of s i = (level_at s i).prev_entry

  -- The levels of a side, from its head on.
  abbrev pub HasLevels : Side → List ℕ → Ladder O → Type 0
  HasLevels side [] s = head_of side s ≡ none
  HasLevels side (h ∷ rest) s =
      (head_of side s ≡ some h) × AreDistinct (h ∷ rest) × Trail (next_of s) (prev_of s) h rest h

  -- At most the links and the heads differ.
  pub record SameLevels (s u : Ladder O) : Type 0 where
    pub same_side : (i : ℕ) → (level_at u i).side ≡ (level_at s i).side
    pub same_price : (i : ℕ) → (level_at u i).price ≡ (level_at s i).price
    pub same_first : (i : ℕ) → (level_at u i).first_order ≡ (level_at s i).first_order
    pub same_free :
        (i : ℕ)
        → (u.orders_at_price_pool.store i).is_free ≡ (s.orders_at_price_pool.store i).is_free
    pub same_size : u.orders_at_price_pool.size ≡ s.orders_at_price_pool.size
    pub same_table : u.orders_at_price ≡ s.orders_at_price
    pub same_orders : u.orders_pool ≡ s.orders_pool

  SameLevels-refl : (s : Ladder O) → SameLevels s s
  SameLevels-refl s = record {
    same_side = λ i. refl;
    same_price = λ i. refl;
    same_first = λ i. refl;
    same_free = λ i. refl;
    same_size = refl;
    same_table = refl;
    same_orders = refl;
  }

  -- The levels with `new` between `before` and `t`.
  abbrev pub linked : (before t new : ℕ) → Ladder O → Ladder O
  linked before t new s = record s {
    orders_at_price_pool =
        set_object (λ l. record l { prev_entry = some new }) t
          (set_object (λ l. record l { next_entry = some new }) before
            (set_object (λ l. record l { prev_entry = some before; next_entry = some t }) new
              s.orders_at_price_pool));
  }

  linked-next :
      (before t new : ℕ) (s : Ladder O) (i : ℕ)
      → next_of (linked before t new s) i
        ≡ (if i == before then some new else (if i == new then some t else next_of s i))
  linked-next before t new s i = ground arith

  linked-prev :
      (before t new : ℕ) (s : Ladder O) (i : ℕ)
      → prev_of (linked before t new s) i
        ≡ (if i == t then some new else (if i == new then some before else prev_of s i))
  linked-prev before t new s i = ground arith

  pub linked-SameLevels : (before t new : ℕ) (s : Ladder O) → SameLevels s (linked before t new s)
  linked-SameLevels before t new s = record {
    same_side = λ i. ground arith;
    same_price = λ i. ground arith;
    same_first = λ i. ground arith;
    same_free = λ i. ground arith;
    same_size = refl;
    same_table = refl;
    same_orders = refl;
  }

  link_before-linked :
      (before t new : ℕ) (s : Ladder O)
      → prev_of s t ≡ some before
      → link_before (some t) (some new) s ≡ ok tt (linked before t new s)
  unfolding link_before read_level set_level
  link_before-linked before t new s e =
      subst
        (λ p.
          (set_level (some new) (λ l. record l { prev_entry = p; next_entry = some t })
              >> set_level p (λ l. record l { next_entry = some new })
              >> set_level (some t) (λ l. record l { prev_entry = some new }))
            s
          ≡ ok tt (linked before t new s))
        (sym e) refl

  -- In a ring, seen from `t`, `new` goes to the end.
  pub link_before_lem :
      (t : ℕ) (zs : List ℕ) (new : ℕ) (s : Ladder O)
      → AreDistinct (t ∷ zs)
      → new ∉ (t ∷ zs)
      → Trail (next_of s) (prev_of s) t zs t
      → let u = linked (last t zs) t new s in
        (link_before (some t) (some new) s ≡ ok tt u)
        × Trail (next_of u) (prev_of u) t (zs ++ (new ∷ [])) t
  link_before_lem t zs new s d fresh r = (
    link_before-linked (last t zs) t new s (Trail-end (next_of s) (prev_of s) t zs t r).1,
    Trail-insert (next_of s) (prev_of s) _ _ t zs new d fresh (linked-next (last t zs) t new s)
        (linked-prev (last t zs) t new s) r,
  )

  -- The links of levels outside `ns` and the head of the other side are as they were.
  pub record SameOutside (side : Side) (ns : List ℕ) (s u : Ladder O) : Type 0 where
    pub same_next : (i : ℕ) → i ∉ ns → next_of u i ≡ next_of s i
    pub same_prev : (i : ℕ) → i ∉ ns → prev_of u i ≡ prev_of s i
    pub same_head : (other : Side) → is_buy other ≢ is_buy side → head_of other u ≡ head_of other s

  SameOutside-refl : (side : Side) (ns : List ℕ) (s : Ladder O) → SameOutside side ns s s
  SameOutside-refl side ns s = record {
    same_next = λ i h. refl;
    same_prev = λ i h. refl;
    same_head = λ other h. refl;
  }

  pub linked-SameOutside :
      (side : Side) (ns : List ℕ) (t : ℕ) (zs : List ℕ) (new : ℕ) (s : Ladder O)
      → ((i : ℕ) → i ∉ ns → i ∉ (t ∷ zs))
      → SameOutside side (new ∷ ns) s (linked (last t zs) t new s)
  linked-SameOutside side ns t zs new s within = record {
    same_next = λ i h. ground (
      arith,
      within i,
      eq-false (ne_of_mem {b = i} (t ∷ zs) (last-mem t zs) (within i (ground arith))),
    );
    same_prev = λ i h. ground (arith, within i);
    same_head = λ other h. refl;
  }

  -- Levels whose links, and whose head, are as they were.
  pub HasLevels-same :
      (side : Side) (ns : List ℕ) (s u : Ladder O)
      → head_of side u ≡ head_of side s
      → ((i : ℕ) → i ∈ ns → next_of u i ≡ next_of s i)
      → ((i : ℕ) → i ∈ ns → prev_of u i ≡ prev_of s i)
      → HasLevels side ns s
      → HasLevels side ns u
  HasLevels-same side [] s u same_head same_next same_prev e = same_head ∙ e
  HasLevels-same side (n ∷ ns) s u same_head same_next same_prev (e, d, r) =
      let (to, from) = Trail-end (next_of s) (prev_of s) n ns n r in
      (
        same_head ∙ e,
        d,
        Trail-redirect (next_of s) (prev_of s) (next_of u) (prev_of u) n ns n n d
            (λ i h k. same_next i h) (λ i h. same_prev i (ground arith))
            (same_next (last n ns) (last-mem n ns) ∙ to) (same_prev n (ground arith) ∙ from) r,
      )

  -- The levels of the other side are as they were.
  HasLevels-other :
      (side other : Side) (ns ms : List ℕ) (s u : Ladder O)
      → SameOutside side ns s u
      → is_buy other ≢ is_buy side
      → ((i : ℕ) → i ∈ ms → i ∉ ns)
      → HasLevels other ms s
      → HasLevels other ms u
  HasLevels-other side other ns ms s u same ne apart =
      HasLevels-same other ms s u (same.same_head other ne) (λ i h. same.same_next i (apart i h))
        λ i h. same.same_prev i (apart i h)
