-- ===== src/Ladder/Heads.antt =====
-- The search of `AddOrdersAtPrice` (exchange/matcher/MEOrderBook.cpp) from the head of a side on, and
-- what writing the head leaves as it was.
use low_latency.Prelude.{
  ◌∉◌, AreDistinct, ℕ, zero, suc, ◌≡◌, ◌≤◌, refl, ap, ◌∙◌, some, List, [], ◌∷◌, ◌++◌, ◌==◌, arith,
  Bool, true, false, Bool-cases, inl, inr, length, eq-true, if◌then◌else◌, Ptr,
}
use low_latency.Prelude.Ensures.{Returns, returns, total_after, total_mono, total_true, total_false}
use low_latency.Common.Types.{Side, is_buy}
use low_latency.Ladder.{Ladder, with_head, read_level, find_place, same_ptr}
use low_latency.Ladder.Rings.{Trail, Trail-rotate, last}
use low_latency.Ladder.Distinct.{
  insert_level, insert_level-here, insert_level-past, insert_level-nil,
}
use low_latency.Ladder.Levels.{
  next_of, prev_of, HasLevels, SameLevels, SameOutside, linked, linked-SameLevels,
  linked-SameOutside, link_before_lem,
}
use low_latency.Ladder.Insertion.{goes_before, Placed, find_place-Placed}

module _ {O : Type 0} where
  -- `with_head` by the test that it makes.
  abbrev write_head : Bool → Ptr → Ladder O → Ladder O
  write_head b p s = if b then record s { bids_by_price = p } else record s { asks_by_price = p }

  write_head-SameLevels :
      (b : Bool) (p : Ptr) (s u : Ladder O) → SameLevels s u → SameLevels s (write_head b p u)
  write_head-SameLevels true p s u same = record {
    same_side = same.same_side;
    same_price = same.same_price;
    same_first = same.same_first;
    same_free = same.same_free;
    same_size = same.same_size;
    same_table = same.same_table;
    same_orders = same.same_orders;
  }
  write_head-SameLevels false p s u same = record {
    same_side = same.same_side;
    same_price = same.same_price;
    same_first = same.same_first;
    same_free = same.same_free;
    same_size = same.same_size;
    same_table = same.same_table;
    same_orders = same.same_orders;
  }

  with_head-SameLevels :
      (side : Side) (p : Ptr) (s u : Ladder O) → SameLevels s u → SameLevels s (with_head side p u)
  with_head-SameLevels side = write_head-SameLevels (is_buy side)

  with_head-SameOutside :
      (side : Side) (ns : List ℕ) (p : Ptr) (s u : Ladder O)
      → SameOutside side ns s u
      → SameOutside side ns s (with_head side p u)
  with_head-SameOutside side ns p s u same = record {
    same_next = λ i h. ground (arith, same.same_next i h);
    same_prev = λ i h. ground (arith, same.same_prev i h);
    same_head = λ other h. ground (arith, same.same_head other h);
  }

  with_head-HasLevels :
      (side : Side) (h : ℕ) (rest : List ℕ) (u : Ladder O)
      → AreDistinct (h ∷ rest)
      → Trail (next_of u) (prev_of u) h rest h
      → HasLevels side (h ∷ rest) (with_head side (some h) u)
  with_head-HasLevels Side.invalid h rest u d r = (refl, d, r)
  with_head-HasLevels Side.buy h rest u d r = (refl, d, r)
  with_head-HasLevels Side.sell h rest u d r = (refl, d, r)
  with_head-HasLevels Side.max h rest u d r = (refl, d, r)

  -- What the search from the head `h` leaves of the levels `ns`.
  abbrev pub Searched :
      Side → (price new : ℕ) → (ns : List ℕ) → (s : Ladder O) → Bool → Ladder O → Type 0
  Searched side price new ns s true u =
      HasLevels side (insert_level (goes_before side price s) new ns) u
      × SameLevels s u
      × SameOutside side (new ∷ ns) s u
  Searched side price new ns s false u =
      (u ≡ s) × (insert_level (goes_before side price s) new ns ≡ ns ++ (new ∷ []))

  find_place-first :
      (fuel : ℕ) (side : Side) (price new h : ℕ) (rest : List ℕ) (s : Ladder O)
      → new ∉ (h ∷ rest)
      → HasLevels side (h ∷ rest) s
      → goes_before side price s h ≡ true
      → Returns
          (Searched side price new (h ∷ rest) s)
          (find_place (suc fuel) side price (some new) (some h) (some h) s)
  unfolding find_place read_level
  find_place-first fuel side price new h rest s fresh (at_head, d, r) e =
      let (runs, r') = link_before_lem h rest new s d fresh r in
      let u : Ladder O = linked (last h rest) h new s in
      let self : (h == h) ≡ true = eq-true {a = h} refl in
      let ins = insert_level-here (goes_before side price s) new h rest e in
      let levels =
        with_head-HasLevels side new (h ∷ rest) u (fresh, d)
          (Trail-rotate (next_of u) (prev_of u) h rest new [] r') in
      total_true _ _ e (
        total_after _ runs (
          rw self (
            returns (
              rw ins levels,
              with_head-SameLevels side (some new) s u (linked-SameLevels (last h rest) h new s),
              with_head-SameOutside side (new ∷ h ∷ rest) (some new) s u
                  (linked-SameOutside side (h ∷ rest) h rest new s λ i k. k),
            ))))

  pub find_place-Searched :
      (fuel : ℕ) (side : Side) (price new h : ℕ) (rest : List ℕ) (s : Ladder O)
      → suc (length rest) ≤ fuel
      → new ∉ (h ∷ rest)
      → HasLevels side (h ∷ rest) s
      → Returns
          (Searched side price new (h ∷ rest) s)
          (find_place fuel side price (some new) (some h) (some h) s)
  unfolding find_place read_level
  find_place-Searched zero side price new h rest s enough fresh ring = absurd (omega arith)
  find_place-Searched (suc fuel) side price new h [] s enough fresh (at_head, d, (to, from)) =
      elim (Bool-cases (goes_before side price s h)) [
        | inl e ↦ find_place-first fuel side price new h [] s fresh (at_head, d, (to, from)) e
        | inr e ↦
            let stops : same_ptr (next_of s h) (some h) ≡ true = rw to (ground arith) in
            total_false _ _ e (total_true _ _ stops (returns (refl, at_end e)))
      ]
    where
      at_end :
          goes_before side price s h ≡ false
          → insert_level (goes_before side price s) new (h ∷ []) ≡ h ∷ new ∷ []
      at_end e =
          insert_level-past (goes_before side price s) new h [] e
          ∙ ap (◌∷◌ h) (insert_level-nil (goes_before side price s) new)
  find_place-Searched (suc fuel) side price new h (y ∷ ys) s enough fresh (at_head, d, r) =
      elim (Bool-cases (goes_before side price s h)) [
        | inl e ↦ find_place-first fuel side price new h (y ∷ ys) s fresh (at_head, d, r) e
        | inr e ↦
            let goes : same_ptr (next_of s h) (some h) ≡ false = rw (r.0) (ground (arith, d.0)) in
            total_false _ _ e (
              total_false _ _ goes (
                rw (r.0) (
                  total_mono
                    (find_place-Placed ys fuel side price new h [] y s (omega arith) fresh
                      (at_head, d, r))
                    (widen e))))
      ]
    where
      widen :
          goes_before side price s h ≡ false
          → (b : Bool) (u : Ladder O) → Placed side price new h [] (y ∷ ys) s b u
          → Searched side price new (h ∷ y ∷ ys) s b u
      widen e true u (levels, same, outside) =
          (rw (insert_level-past (goes_before side price s) new h (y ∷ ys) e) levels, same, outside)
      widen e false u (unchanged, at_end) = (
        unchanged,
        insert_level-past (goes_before side price s) new h (y ∷ ys) e ∙ ap (◌∷◌ h) at_end,
      )
