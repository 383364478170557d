-- ===== src/Ladder/Insertion.antt =====
-- Where `AddOrdersAtPrice` of exchange/matcher/MEOrderBook.cpp puts a price in the list of a side.
use mathlib.Core.Path.{subst}
use mathlib.Core.List.{append_assoc}
use low_latency.Prelude.{
  ◌∉◌, AreDistinct, has-append, ℕ, zero, suc, ◌<◌, ◌≡◌, refl, ap, some, List, [], ◌∷◌, ◌++◌, ◌==◌,
  arith, Bool, true, false, Bool-cases, inl, inr, length, ok, ◌∙◌,
}
use low_latency.Prelude.Ensures.{Returns, returns, total_after, total_mono, total_true, total_false}
use low_latency.Common.Types.{Side}
use low_latency.Ladder.{Ladder, link_before, read_level, should_insert, find_place, same_ptr}
use low_latency.Ladder.Rings.{Trail, Trail-rotate, Trail-split, last}
use low_latency.Ladder.Distinct.{
  insert_level, insert_level-here, insert_level-past, insert_level-nil, AreDistinct-swap,
}
use low_latency.Ladder.Levels.{
  level_at, next_of, prev_of, HasLevels, SameLevels, SameOutside, linked, linked-SameLevels,
  linked-SameOutside, link_before_lem,
}

module _ {O : Type 0} where
  -- The levels that a new one at `price` goes in front of.
  abbrev pub goes_before : Side → (price : ℕ) → Ladder O → ℕ → Bool
  goes_before side price s i = should_insert side price (level_at s i).price

  -- What `find_place` leaves of the levels `xs` behind the head `h` and `ts` behind them.
  abbrev pub Placed :
      Side → (price new h : ℕ) → (xs ts : List ℕ) → (s : Ladder O) → Bool → Ladder O → Type 0
  Placed side price new h xs ts s true u =
      HasLevels side (h ∷ (xs ++ insert_level (goes_before side price s) new ts)) u
      × SameLevels s u
      × SameOutside side (new ∷ h ∷ (xs ++ ts)) s u
  Placed side price new h xs ts s false u =
      (u ≡ s) × (insert_level (goes_before side price s) new ts ≡ ts ++ (new ∷ []))

  -- `new` goes between the end of `h ∷ xs` and `t`.
  link_between :
      (side : Side) (h : ℕ) (xs : List ℕ) (t : ℕ) (ys : List ℕ) (new : ℕ) (s : Ladder O)
      → new ∉ (h ∷ (xs ++ (t ∷ ys)))
      → HasLevels side (h ∷ (xs ++ (t ∷ ys))) s
      → (u : Ladder O) × (link_before (some t) (some new) s ≡ ok tt u)
        × HasLevels side (h ∷ (xs ++ (new ∷ t ∷ ys))) u
        × SameLevels s u
        × SameOutside side (new ∷ h ∷ (xs ++ (t ∷ ys))) s u
  link_between side h xs t ys new s fresh (at_head, d, r) =
      let d' : AreDistinct (t ∷ (ys ++ (h ∷ xs))) = AreDistinct-swap (h ∷ xs) (t ∷ ys) d in
      let fresh' : new ∉ (t ∷ (ys ++ (h ∷ xs))) =
        ground (arith, has-append new xs (t ∷ ys), has-append new ys (h ∷ xs)) in
      let (runs, r') =
        link_before_lem t (ys ++ (h ∷ xs)) new s d' fresh'
          (Trail-rotate (next_of s) (prev_of s) h xs t ys r) in
      let u : Ladder O = linked (last t (ys ++ (h ∷ xs))) t new s in
      let whole : Trail (next_of u) (prev_of u) h ((xs ++ (new ∷ [])) ++ (t ∷ ys)) h =
        Trail-rotate (next_of u) (prev_of u) t ys h (xs ++ (new ∷ [])) (
          subst (λ l. Trail (next_of u) (prev_of u) t l t) (append_assoc ys (h ∷ xs) (new ∷ []))
            r') in
      (
        u,
        runs,
        (
          at_head,
          AreDistinct-swap (new ∷ t ∷ ys) (h ∷ xs) (fresh', d'),
          subst (λ l. Trail (next_of u) (prev_of u) h l h) (append_assoc xs (new ∷ []) (t ∷ ys))
              whole,
        ),
        linked-SameLevels (last t (ys ++ (h ∷ xs))) t new s,
        linked-SameOutside side (h ∷ (xs ++ (t ∷ ys))) t (ys ++ (h ∷ xs)) new s
            λ i k. ground (arith, has-append i xs (t ∷ ys), has-append i ys (h ∷ xs)),
      )

  place_here :
      (ys : List ℕ) (fuel : ℕ) (side : Side) (price new h : ℕ) (xs : List ℕ) (t : ℕ) (s : Ladder O)
      → new ∉ (h ∷ (xs ++ (t ∷ ys)))
      → HasLevels side (h ∷ (xs ++ (t ∷ ys))) s
      → goes_before side price s t ≡ true
      → Returns
          (Placed side price new h xs (t ∷ ys) s)
          (find_place (suc fuel) side price (some new) (some h) (some t) s)
  unfolding find_place read_level
  place_here ys fuel side price new h xs t s fresh (at_head, d, r) e =
      let (u, runs, levels, same, outside) =
        link_between side h xs t ys new s fresh (at_head, d, r) in
      let ne : (t == h) ≡ false = ground (arith, d.0, has-append h xs (t ∷ ys)) in
      let ins = insert_level-here (goes_before side price s) new t ys e in
      total_true _ _ e (total_after _ runs (rw ne (returns (rw ins levels, same, outside))))

  -- The loop of `AddOrdersAtPrice` from a level `t` behind the head on.
  pub find_place-Placed :
      (ys : List ℕ) (fuel : ℕ) (side : Side) (price new h : ℕ) (xs : List ℕ) (t : ℕ) (s : Ladder O)
      → length ys < fuel
      → new ∉ (h ∷ (xs ++ (t ∷ ys)))
      → HasLevels side (h ∷ (xs ++ (t ∷ ys))) s
      → Returns
          (Placed side price new h xs (t ∷ ys) s)
          (find_place fuel side price (some new) (some h) (some t) s)
  unfolding find_place read_level
  find_place-Placed ys zero side price new h xs t s enough fresh ring = absurd (omega arith)
  find_place-Placed [] (suc fuel) side price new h xs t s enough fresh (at_head, d, r) =
      elim (Bool-cases (goes_before side price s t)) [
        | inl e ↦ place_here [] fuel side price new h xs t s fresh (at_head, d, r) e
        | inr e ↦
            let (_, (to, _)) = Trail-split (next_of s) (prev_of s) h xs t [] h r in
            let stops : same_ptr (next_of s t) (some h) ≡ true = rw to (ground arith) in
            total_false _ _ e (
              total_true _ _ stops (
                returns (
                  refl,
                  insert_level-past (goes_before side price s) new t [] e
                      ∙ ap (◌∷◌ t) (insert_level-nil (goes_before side price s) new),
                )))
      ]
  find_place-Placed (y ∷ ys) (suc fuel) side price new h xs t s enough fresh (at_head, d, r) =
      elim (Bool-cases (goes_before side price s t)) [
        | inl e ↦ place_here (y ∷ ys) fuel side price new h xs t s fresh (at_head, d, r) e
        | inr e ↦
            let (_, (to, _, _)) = Trail-split (next_of s) (prev_of s) h xs t (y ∷ ys) h r in
            let goes : same_ptr (next_of s t) (some h) ≡ false =
              rw to (ground (arith, d.0, has-append h xs (t ∷ y ∷ ys))) in
            let assoc = append_assoc xs (t ∷ []) (y ∷ ys) in
            let rest =
              find_place-Placed ys fuel side price new h (xs ++ (t ∷ [])) y s (omega arith)
                (rw assoc fresh) (rw assoc (at_head, d, r)) in
            total_false _ _ e (total_false _ _ goes (rw to (total_mono rest (shift e assoc))))
      ]
    where
      shift :
          goes_before side price s t ≡ false
          → ((xs ++ (t ∷ [])) ++ (y ∷ ys)) ≡ xs ++ (t ∷ y ∷ ys)
          → (b : Bool) (u : Ladder O) → Placed side price new h (xs ++ (t ∷ [])) (y ∷ ys) s b u
          → Placed side price new h xs (t ∷ y ∷ ys) s b u
      shift e assoc true u (levels, same, outside) =
          let past = insert_level-past (goes_before side price s) new t (y ∷ ys) e in
          let ins = insert_level (goes_before side price s) new (y ∷ ys) in
          let levels' : HasLevels side (h ∷ (xs ++ (t ∷ ins))) u =
            subst (λ l. HasLevels side (h ∷ l) u) (append_assoc xs (t ∷ []) ins) levels in
          (rw past levels', same, subst (λ l. SameOutside side (new ∷ h ∷ l) s u) assoc outside)
      shift e assoc false u (unchanged, at_end) = (
        unchanged,
        insert_level-past (goes_before side price s) new t (y ∷ ys) e ∙ ap (◌∷◌ t) at_end,
      )
