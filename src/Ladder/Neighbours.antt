-- ===== src/Ladder/Neighbours.antt =====
-- The prices of a side with more than one: each level is followed by another (the ring of the prices
-- in exchange/matcher/MEOrderBook.cpp).
use mathlib.Core.Path.{subst}
use low_latency.Prelude.{
  ◌∈◌, ◌∉◌, AreDistinct, ℕ, ◌≡◌, ◌≢◌, sym, ap, ◌∙◌, some, List, [], ◌∷◌, ◌==◌, arith, Ptr, true,
  Bool, Bool-cases, inl, inr,
}
use low_latency.Common.Types.{Side}
use low_latency.Ladder.{Ladder}
use low_latency.Ladder.Rings.{Trail}
use low_latency.Ladder.Levels.{next_of, HasLevels}
use low_latency.Ladder.Distinct.{
  insert_level, insert_level-here, insert_level-past, insert_level-first, has-insert_level,
}

-- The link of a node leads to another one.
abbrev pub LeadsOn : (next : ℕ → Ptr) → ℕ → Type 0
LeadsOn next y = (z : ℕ) × (next y ≡ some z) × (z ≢ y)

module _ (next prev : ℕ → Ptr) where
  leads_on : (p z y : ℕ) → next p ≡ some z → z ≢ p → (y == p) ≡ true → LeadsOn next y
  leads_on p z y e ne same =
      let here : y ≡ p = ground (arith, same) in subst (LeadsOn next) (sym here) (z, e, ne)

  Trail-LeadsOn :
      (p : ℕ) (xs : List ℕ) (q : ℕ)
      → Trail next prev p xs q
      → AreDistinct (p ∷ xs)
      → q ∉ (p ∷ xs)
      → (y : ℕ) → y ∈ (p ∷ xs)
      → LeadsOn next y
  Trail-LeadsOn p [] q (n, b) d out y h = leads_on p q y n (ground (arith, out)) (ground (arith, h))
  Trail-LeadsOn p (x ∷ xs) q (n, b, t) (new, d) out y h = elim (Bool-cases (y == p)) [
    | inl e ↦ leads_on p x y n (ground (arith, new)) e
    | inr e ↦ Trail-LeadsOn x xs q t d (ground (arith, out)) y (ground (arith, h, e))
  ]

  ring-LeadsOn :
      (p x : ℕ) (xs : List ℕ)
      → Trail next prev p (x ∷ xs) p
      → AreDistinct (p ∷ x ∷ xs)
      → (y : ℕ) → y ∈ (p ∷ x ∷ xs)
      → LeadsOn next y
  ring-LeadsOn p x xs (n, b, t) (new, d) y h = elim (Bool-cases (y == p)) [
    | inl e ↦ leads_on p x y n (ground (arith, new)) e
    | inr e ↦ Trail-LeadsOn x xs p t d new y (ground (arith, h, e))
  ]

-- A list that has got a new element besides others has two.
insert_level-two :
    (before : ℕ → Bool) (new m : ℕ) (ms : List ℕ)
    → (p : ℕ) × (x : ℕ) × (xs : List ℕ) × (insert_level before new (m ∷ ms) ≡ p ∷ x ∷ xs)
insert_level-two before new m ms = elim (Bool-cases (before m)) [
  | inl e ↦ (new, m, ms, insert_level-here before new m ms e)
  | inr e ↦
      let (x, xs, shape, _) = insert_level-first before new ms in
      (m, x, xs, insert_level-past before new m ms e ∙ ap (◌∷◌ m) shape)
]

module _ {O : Type 0} where
  -- A new level of a side that has others is followed by another.
  pub insert_level-LeadsOn :
      (side : Side) (before : ℕ → Bool) (new m : ℕ) (ms : List ℕ) (s : Ladder O)
      → HasLevels side (insert_level before new (m ∷ ms)) s
      → LeadsOn (next_of s) new
  insert_level-LeadsOn side before new m ms s h =
      let (p, x, xs, shape) = insert_level-two before new m ms in
      let (_, d, t) = subst (λ l. HasLevels side l s) shape h in
      let here : new ∈ (insert_level before new (m ∷ ms)) =
        ground (arith, has-insert_level before new new (m ∷ ms)) in
      ring-LeadsOn (next_of s) _ p x xs t d new (subst (λ l. new ∈ l) shape here)
