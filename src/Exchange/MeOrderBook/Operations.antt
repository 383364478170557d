-- ===== src/Exchange/MeOrderBook/Operations.antt =====
-- `Add` and `Cancel` of exchange/matcher/MEOrderBook.cpp as a whole.
use low_latency.Prelude.{ℕ, refl, not, ◌==◌, ltb, Bool-cases, inl, inr}
use low_latency.Prelude.Ensures.{Ensures, done, stopped, Keeps}
use low_latency.Prelude.Ensures
use low_latency.Common.Types.{Side}
use low_latency.Ladder.{is_null}
use low_latency.Ladder.Unlinked.{allocate-AllUnlinked}
use low_latency.Exchange.MeOrderBook.{
  send_client_response, send_market_update, generate_new_market_order_id,
}
use low_latency.Exchange.MeOrderBook.Add.{add}
use low_latency.Exchange.MeOrderBook.Cancel.{find_client_order, cancel}
use low_latency.Exchange.MeOrderBook.NoQueue.{
  DeskUnlinked, ladder-Keeps, orders-Keeps, read_order-Keeps, add_order-Keeps, remove_order-Keeps,
  check_for_match-Keeps, get_next_priority-Keeps, level_to_string-Keeps,
}

-- However `Add` ends, if it ends with a book, no order of that book has a neighbour.
pub add-DeskUnlinked :
    (fuel client client_order ticker : ℕ) (side : Side) (price qty : ℕ)
    → Keeps DeskUnlinked (add fuel client client_order ticker side price qty)
unfolding add generate_new_market_order_id send_client_response send_market_update
add-DeskUnlinked fuel client client_order ticker side price qty d h =
    Ensures.bind (check_for_match-Keeps fuel side price qty _ h) λ left d₁ h₁.
      Ensures.branch_when (not (left == 0)) _ d₁ h₁ (
        Ensures.bind (get_next_priority-Keeps price d₁ h₁) λ priority d₂ h₂.
          Ensures.bind (ladder-Keeps _ (orders-Keeps _ (allocate-AllUnlinked _ (refl, refl))) d₂ h₂)
            λ order d₃ h₃. Ensures.bind (add_order-Keeps order d₃ h₃) λ _ d₄ h₄.
              Ensures.bind (ladder-Keeps _ (level_to_string-Keeps fuel _) d₄ h₄) λ _ d₅ h₅. done h₅)

find_client_order-Keeps : (client order : ℕ) → Keeps DeskUnlinked (find_client_order client order)
unfolding find_client_order
find_client_order-Keeps client order d h = elim (Bool-cases (ltb client 256)) [
  | inr e ↦ rw e (done h)
  | inl e ↦ elim (Bool-cases (ltb order 1024)) [
    | inl f ↦ rw (e, f) (done h)
    | inr f ↦ rw (e, f) stopped
  ]
]

pub cancel-DeskUnlinked :
    (client client_order ticker : ℕ) → Keeps DeskUnlinked (cancel client client_order ticker)
unfolding cancel send_client_response send_market_update
cancel-DeskUnlinked client client_order ticker d h =
    Ensures.bind (find_client_order-Keeps client client_order d h) λ found d₁ h₁.
      Ensures.branch (is_null found) _ _ d₁ (done h₁) (
        Ensures.bind (remove_order-Keeps found d₁ h₁) λ _ d₂ h₂.
          Ensures.bind (ladder-Keeps _ (read_order-Keeps found) d₂ h₂) λ o d₃ h₃. done h₃)
