-- ===== src/Exchange/MeOrderBook/Cancelling.antt =====
-- The branches of `Cancel` of exchange/matcher/MEOrderBook.cpp that find no order.
use low_latency.Prelude.{ℕ, ◌<◌, ◌≤◌, ◌≡◌, ◌⊎◌, inl, inr, none, arith, ok, fault, uncaught}
use low_latency.Common.Types.{Side, order_id_invalid, price_invalid, quantity_invalid}
use low_latency.Common.Messages.{ClientResponseType, MeClientResponse}
use low_latency.Common.SafeQueue.{push}
use low_latency.Exchange.MeOrderBook.{Desk, send_client_response}
use low_latency.Exchange.MeOrderBook.Cancel.{find_client_order, cancel}

-- The answer to a cancel of an order that is not there.
abbrev pub rejection : (client client_order ticker : ℕ) → MeClientResponse
rejection client client_order ticker = record {
  type = ClientResponseType.cancel_rejected;
  client_id = client;
  client_order_id = client_order;
  ticker_id = ticker;
  market_order_id = order_id_invalid;
  executed_quantity = quantity_invalid;
  leaves_quantity = quantity_invalid;
  price = price_invalid;
  side = Side.invalid;
}

-- A cancel from a client whose id is too large, or of an order with an id in range that the
-- client does not have, is answered with a rejection and changes nothing else.
pub cancel-rejected :
    (client client_order ticker : ℕ) (d : Desk)
    → (256 ≤ client)
      ⊎ ((client_order < 1024) × (d.book.client_id_to_order_id client client_order ≡ none))
    → cancel client client_order ticker d
      ≡ ok tt (record d {
        client_responses = push (rejection client client_order ticker) d.client_responses;
      })
unfolding cancel find_client_order send_client_response
cancel-rejected client client_order ticker d (inl h) = ground (arith, h)
cancel-rejected client client_order ticker d (inr (h, e)) = ground (arith, h, e)

-- A cancel from a client in range with an order id that is out of range ends the engine with an
-- exception, and a rejection is never sent.
pub cancel-uncaught :
    (client client_order ticker : ℕ) (d : Desk)
    → client < 256
    → 1024 ≤ client_order
    → cancel client client_order ticker d ≡ fault uncaught
unfolding cancel find_client_order
cancel-uncaught client client_order ticker d h k = ground (arith, h, k)
