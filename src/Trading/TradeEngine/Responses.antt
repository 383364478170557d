-- ===== src/Trading/TradeEngine/Responses.antt =====
-- The loop over client responses in trading/strategy/TradeEngine.cpp.
use low_latency.Prelude.{
  ℕ, zero, suc, ◌≡◌, some, Run, ok, fault, out_of_fuel, and_then, Cmd, put_back,
}
use low_latency.Prelude.Ensures.{Ensures, done, stopped, unfinished}
use low_latency.Prelude.Ensures
use low_latency.Common.Double.{Double}
use low_latency.Common.Messages.{MeClientResponse}
use low_latency.Common.SafeQueue.{get_next_read, update_read_index}
use low_latency.Trading.TradeEngine.{
  TradeEngine, touch, on_client_response, responses_loop, process_responses,
}

module _ {F : Type 0} (double : Double F) where
  -- A loop whose every round either stops the program or goes on has no other end.
  never :
      {A B : Type 0} (r : Run (TradeEngine F) A) (k : A → Cmd (TradeEngine F) B)
      → ((a : A) (s : TradeEngine F) → Ensures (λ _ _. ⊥) (k a s))
      → Ensures (λ _ _. ⊥) (and_then r k)
  never (ok a s) k h = h a s
  never (fault f) k h = stopped
  never out_of_fuel k h = unfinished

  responses_loop-never :
      (fuel slot : ℕ) (e : TradeEngine F) → Ensures (λ _ _. ⊥) (responses_loop double fuel slot e)
  unfolding responses_loop
  responses_loop-never zero slot e = unfinished
  responses_loop-never (suc fuel) slot e =
      never (on_client_response double (e.responses_queue.store slot) e) _ λ _ e₁.
        never
          (put_back (λ q. record e₁ { responses_queue = q }) (update_read_index e₁.responses_queue))
          _ λ _ e₂. responses_loop-never fuel slot (touch e₂)

  -- Once there is a response to process, the engine does not get past it: the loop over responses
  -- ends in a fault or not at all, however many rounds it is given.
  pub process_responses-never :
      (fuel : ℕ) (e : TradeEngine F) (r : MeClientResponse)
      → get_next_read e.responses_queue ≡ some r
      → Ensures (λ _ _. ⊥) (process_responses double fuel e)
  unfolding process_responses
  process_responses-never fuel e r h = Ensures.choice-some _ _ h (responses_loop-never fuel _ e)
