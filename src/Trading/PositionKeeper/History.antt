-- ===== src/Trading/PositionKeeper/History.antt =====
-- A position of trading/strategy/PositionKeeper.h through many fills.
use mathlib.Core.Path.{subst}
use low_latency.Prelude.{
  ℕ, ◌+◌, ◌^◌, ◌<◌, ◌≡◌, refl, ◌∙◌, ap, ◌⊎◌, inl, inr, ◌==◌, Bool-cases, List, [], ◌∷◌, arith, Cmd,
  pure, ltb-true, ◌>>◌, sym,
}
use low_latency.Prelude.Ensures.{Returns, returns, total_bind, total_mono}
use low_latency.Prelude.Int.{ℤ, pos, ◌+ℤ◌, ◌*ℤ◌, sub_ℕ, abs, mul32, is_negative}
use low_latency.Common.Types.{Side, u32, side_to_index, side_to_value}
use low_latency.Common.Double.{Double}
use low_latency.Common.Messages.{MeClientResponse}
use low_latency.Trading.PositionKeeper.{
  PositionInfo, next_position, extend, reduce, revalue, total, add_fill,
}
use low_latency.Trading.PositionKeeper.Range.{FitsInt32, next_position-exact}

-- What a fill adds to the position, in true numbers.
abbrev pub moved_by : Side → (executed : ℕ) → ℤ
moved_by Side.buy q = pos q
moved_by Side.sell q = sub_ℕ 0 q
moved_by _ q = pos 0

-- The position after all fills, and what they trade together.
abbrev pub net : ℤ → List MeClientResponse → ℤ
net p [] = p
net p (r ∷ rs) = net (p +ℤ moved_by r.side r.executed_quantity) rs

abbrev pub traded : List MeClientResponse → ℕ
traded [] = 0
traded (r ∷ rs) = r.executed_quantity + traded rs

-- Each is a purchase or a sale, and the position fits in 32 bits after each.
abbrev pub AreFills : ℤ → List MeClientResponse → Type 0
AreFills p [] = Unit
AreFills p (r ∷ rs) =
    ((r.side ≡ Side.buy) ⊎ (r.side ≡ Side.sell))
    × (r.executed_quantity < 2 ^ 32)
    × FitsInt32 (p +ℤ moved_by r.side r.executed_quantity)
    × AreFills (p +ℤ moved_by r.side r.executed_quantity) rs

moved_by-side :
    (side : Side) (q : ℕ)
    → (side ≡ Side.buy) ⊎ (side ≡ Side.sell)
    → moved_by side q ≡ side_to_value side *ℤ pos q
unfolding ◌*ℤ◌
moved_by-side Side.buy q h = ground arith
moved_by-side Side.sell q h = ground arith
moved_by-side Side.invalid q (inl e) = cc
moved_by-side Side.invalid q (inr e) = cc
moved_by-side Side.max q (inl e) = cc
moved_by-side Side.max q (inr e) = cc

next_position-moved_by :
    (p : ℤ) (q : ℕ) (side : Side)
    → (side ≡ Side.buy) ⊎ (side ≡ Side.sell)
    → q < 2 ^ 32
    → FitsInt32 p
    → FitsInt32 (p +ℤ moved_by side q)
    → next_position p q side ≡ p +ℤ moved_by side q
next_position-moved_by p q side h hq hp hs =
    subst (λ x. FitsInt32 (p +ℤ x) → next_position p q side ≡ p +ℤ x) (sym (moved_by-side side q h))
      (next_position-exact p q side h hq hp) hs

small_index : (side : Side) → (side ≡ Side.buy) ⊎ (side ≡ Side.sell) → side_to_index side < 3
unfolding side_to_index
small_index Side.buy h = omega arith
small_index Side.sell h = omega arith
small_index Side.invalid h = omega arith
small_index Side.max (inl e) = cc
small_index Side.max (inr e) = cc

module _ {F : Type 0} (double : Double F) where
  -- `AddFill` for each.
  unfoldable pub add_fills : List MeClientResponse → Cmd (PositionInfo F) (Unit {0})
  unfolding add_fill
  add_fills [] = pure tt
  add_fills (r ∷ rs) = add_fill double r >> add_fills rs

  -- What the rest of `AddFill` leaves as it is.
  abbrev Moved : ℤ → ℕ → PositionInfo F → Type 0
  Moved position volume t = (t.position ≡ position) × (t.volume ≡ volume)

  revalue-Moved :
      (r : MeClientResponse) (q : PositionInfo F)
      → Moved q.position q.volume (total double (revalue double r q))
  unfolding revalue total
  revalue-Moved r q = elim (Bool-cases (abs q.position == 0)) [
    | inl e ↦ rw e (refl, refl)
    | inr e ↦ rw e (refl, refl)
  ]

  add_fill-Moved :
      (r : MeClientResponse) (p : PositionInfo F)
      → side_to_index r.side < 3
      → Returns
          (λ _ t.
            Moved
              (next_position p.position r.executed_quantity r.side)
              (u32 (p.volume + r.executed_quantity))
              t)
          (add_fill double r p)
  unfolding add_fill extend reduce
  add_fill-Moved r p h = elim (Bool-cases (is_negative (mul32 p.position (side_to_value r.side)))) [
    | inl e ↦ rw (ltb-true h, e) (returns (revalue-Moved r (reduce double p.position r moved)))
    | inr e ↦ rw (ltb-true h, e) (returns (revalue-Moved r (extend double r moved)))
  ]
    where
      moved : PositionInfo F
      moved = record p {
        position = next_position p.position r.executed_quantity r.side;
        volume = u32 (p.volume + r.executed_quantity);
      }

  -- Through any purchases and sales, as long as the position fits in 32 bits before them and after
  -- each, the position is at the end what it was with all purchases added and all sales taken off,
  -- and the volume, below 2 ^ 32 before, has grown by all that was traded, in 32 bits.
  pub add_fills-net :
      (rs : List MeClientResponse) (p : PositionInfo F)
      → FitsInt32 p.position
      → p.volume < 2 ^ 32
      → AreFills p.position rs
      → Returns
          (λ _ t. (t.position ≡ net p.position rs) × (t.volume ≡ u32 (p.volume + traded rs)))
          (add_fills rs p)
  unfolding add_fills
  add_fills-net [] p fits small fills = returns (refl, omega (arith, small))
  add_fills-net (r ∷ rs) p fits small (side, hq, after, fills) =
      total_bind _ (add_fill-Moved r p (small_index r.side side)) λ _ t (position, volume).
        let e : t.position ≡ p.position +ℤ moved_by r.side r.executed_quantity =
          position
          ∙ next_position-moved_by p.position r.executed_quantity r.side side hq fits after in
        total_mono
          (add_fills-net rs t (subst FitsInt32 (sym e) after) (omega (arith, volume))
            (subst (λ x. AreFills x rs) (sym e) fills))
          λ _ u (end, sum). (end ∙ ap (λ x. net x rs) e, sum ∙ omega (arith, volume))
