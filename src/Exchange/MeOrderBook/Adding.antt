-- ===== src/Exchange/MeOrderBook/Adding.antt =====
-- The whole of `Add` of exchange/matcher/MEOrderBook.cpp, for an order that does not trade and has a
-- price of its own.
use mathlib.Core.Path.{subst}
use low_latency.Prelude.{
  ◌∈◌, ◌∉◌, ne_of_mem, ℕ, ◌+◌, suc, ◌≡◌, ◌≢◌, refl, ap, ◌∙◌, none, some, false, List, ◌∷◌, ◌==◌,
  eq-true, arith, inl, inr, put_back, and_then-ok, get, Cmd, ◌>>=◌, ◌>>◌,
}
use low_latency.Prelude.Ensures.{Returns}
use low_latency.Common.MemoryPool.{MemoryPool}
use low_latency.Common.MemoryPool.Allocation.{HasSpare, allocate_lem, filled, with_next}
use low_latency.Common.Types.{Side, is_buy, u64}
use low_latency.Common.SafeQueue.{push}
use low_latency.Ladder.{Linked, Ladder, get_orders_at_price}
use low_latency.Ladder.Distinct.{insert_level, insert_level-first}
use low_latency.Ladder.Levels.{level_at, HasLevels, HasLevels-same}
use low_latency.Ladder.Insertion.{goes_before}
use low_latency.Ladder.Entering.{HasEntered}
use low_latency.Exchange.MeOrderBook.{
  MeOrder, MeOrder-Priced, Desk, on_ladder, with_ladder, send_client_response, send_market_update,
  generate_new_market_order_id, add_order,
}
use low_latency.Exchange.MeOrderBook.Add.{add, level_to_string}
use low_latency.Exchange.MeOrderBook.Matching.{Rests, check_for_match-resting}
use low_latency.Exchange.MeOrderBook.NoQueue.{get_next_priority-free}
use low_latency.Exchange.MeOrderBook.Resting.{
  HasAdded, HasPlace, add_order-HasAdded, accepted, resting, added,
}

-- The first bid price, before or after an order on `side` joins the levels `ns` of its side, has
-- a first order that can be printed.
abbrev pub CanPrint : Side → List ℕ → Ladder MeOrder → Type 0
CanPrint Side.buy ns l = (m : ℕ) → m ∈ ns → (k : ℕ) × ((level_at l m).first_order ≡ some k)
CanPrint _ ns l =
    (m : ℕ) × (l.bids_by_price ≡ some m)
    × (m ≢ l.orders_at_price_pool.next_free_index)
    × (k : ℕ) × ((level_at l m).first_order ≡ some k)

-- A first bid price, and the first order at it.
abbrev pub FirstBid : Ladder MeOrder → Type 0
FirstBid t = (m : ℕ) × (t.bids_by_price ≡ some m) × (k : ℕ) × ((level_at t m).first_order ≡ some k)

entered-first :
    (i : ℕ) (ns : List ℕ) (o : MeOrder) (s t : Ladder MeOrder) (m : ℕ)
    → HasEntered i ns s t s.orders_at_price_pool.next_free_index o
    → m ≢ s.orders_at_price_pool.next_free_index
    → (k : ℕ) × ((level_at s m).first_order ≡ some k)
    → (k : ℕ) × ((level_at t m).first_order ≡ some k)
entered-first i ns o s t m h ne (k, e) = (k, (h.others m ne).1 ∙ e)

-- Where the bids are not touched, their first price is as before.
kept-FirstBid :
    (i : ℕ) (ns : List ℕ) (o : MeOrder) (s t : Ladder MeOrder)
    → is_buy Side.buy ≢ is_buy o.side
    → CanPrint Side.sell ns s
    → HasEntered i ns s t s.orders_at_price_pool.next_free_index o
    → FirstBid t
kept-FirstBid i ns o s t ne (m, e, old, k₀, f₀) h =
    let (k, first) = entered-first i ns o s t m h old (k₀, f₀) in
    (m, h.other_head Side.buy ne ∙ e, k, first)

pub entered-FirstBid :
    (side : Side) (i : ℕ) (ns : List ℕ) (o : MeOrder) (s t : Ladder MeOrder)
    → o.side ≡ side
    → s.orders_at_price_pool.next_free_index ∉ ns
    → CanPrint side ns s
    → HasEntered i ns s t s.orders_at_price_pool.next_free_index o
    → FirstBid t
entered-FirstBid Side.buy i ns o s t e fresh prints h =
    let n = s.orders_at_price_pool.next_free_index in
    let (m, rest, first, which) = insert_level-first (goes_before o.side o.price s) n ns in
    let at_head : HasLevels Side.buy (m ∷ rest) t =
      subst (λ x. HasLevels x (m ∷ rest) t) e (subst (λ l. HasLevels o.side l t) first h.levels) in
    let printed : (k : ℕ) × ((level_at t m).first_order ≡ some k) = elim which [
      | inl same ↦ (i, ap (λ x. (level_at t x).first_order) same ∙ h.first)
      | inr old ↦ entered-first i ns o s t m h (ne_of_mem ns old fresh) (prints m old)
    ] in
    (m, at_head.0, printed.0, printed.1)
entered-FirstBid Side.sell i ns o s t e fresh prints h =
    kept-FirstBid i ns o s t (rw e λ k. cc) prints h
entered-FirstBid Side.invalid i ns o s t e fresh prints h =
    kept-FirstBid i ns o s t (rw e λ k. cc) prints h
entered-FirstBid Side.max i ns o s t e fresh prints h =
    kept-FirstBid i ns o s t (rw e λ k. cc) prints h

module _ (client client_order ticker : ℕ) (side : Side) (price qty : ℕ) where
  -- The desk when the client has been told and the order has a number.
  abbrev pub announced : Desk → Desk
  announced d = record d {
    book = record (d.book) { next_order_id = u64 (d.book.next_order_id + 1) };
    client_responses =
        push (accepted client client_order ticker side price qty d.book.next_order_id)
          d.client_responses;
  }

  abbrev pub unlinked : (id : ℕ) → Linked MeOrder
  unlinked id = record {
    order = resting client client_order ticker side price qty id;
    next_order = none;
    prev_order = none;
  }

  abbrev pub with_orders : MemoryPool (Linked MeOrder) → Desk → Desk
  with_orders p d = with_ladder (record (d.book.ladder) { orders_pool = p }) d

  -- The same, with the order in its pool.
  abbrev pub placed : (d : Desk) → (k : ℕ) → Desk
  placed d k =
      with_orders (with_next k (filled (unlinked d.book.next_order_id) d.book.ladder.orders_pool))
        (announced d)

  -- The end of `Add`: the first bid price is printed and the update goes out.
  abbrev pub report : (fuel id : ℕ) → Cmd Desk (Unit {0})
  report fuel id = do
    d ← get
    on_ladder (level_to_string fuel d.book.ladder.bids_by_price)
    send_market_update (added client client_order ticker side price qty id)

  -- What is left of `Add` when the order is in its pool.
  abbrev pub enter : (fuel i id : ℕ) → Cmd Desk (Unit {0})
  enter fuel i id = do add_order (some i); report fuel id

  pub add-enter :
      (fuel at : ℕ) (d : Desk)
      → qty ≢ 0
      → Rests side price at d.book.ladder
      → HasSpare d.book.ladder.orders_pool
      → get_orders_at_price price d.book.ladder ≡ none
      → (k : ℕ) × (add (suc fuel) client client_order ticker side price qty d
          ≡ enter
              (suc fuel)
              d.book.ladder.orders_pool.next_free_index
              d.book.next_order_id
              (placed d k))
  unfolding add generate_new_market_order_id send_client_response
  add-enter fuel at d ne rests spare unused =
      let (k, allocates, _, _) =
        allocate_lem (unlinked d.book.next_order_id) d.book.ladder.orders_pool spare.spare
          spare.is_ready spare.in_range spare.is_other spare.is_free in
      let nonzero : (qty == 0) ≡ false = ground arith in
      (
        k,
        and_then-ok _ (check_for_match-resting fuel side price qty at (announced d) rests) (
            rw nonzero (
              and_then-ok _ (get_next_priority-free price (announced d) unused) (
                and_then-ok _
                  (ap (put_back (λ l. with_ladder l (announced d)))
                    (ap (put_back (λ p. record (d.book.ladder) { orders_pool = p })) allocates))
                  refl))),
      )

  -- Where the order has come to: in the pool, in the levels `ns` of its side and in the table of its
  -- client; both queues have got one message.
  pub record HasRested (ns : List ℕ) (d t : Desk) : Type 0 where
    pub responses :
        t.client_responses
        ≡ push
            (accepted client client_order ticker side price qty d.book.next_order_id)
            d.client_responses
    pub updates :
        t.market_updates
        ≡ push
            (added client client_order ticker side price qty d.book.next_order_id)
            d.market_updates
    pub found :
        t.book.client_id_to_order_id client client_order
        ≡ some d.book.ladder.orders_pool.next_free_index
    pub order :
        (t.book.ladder.orders_pool.store d.book.ladder.orders_pool.next_free_index).object.order
        ≡ resting client client_order ticker side price qty d.book.next_order_id
    pub at_price :
        get_orders_at_price price t.book.ladder
        ≡ some d.book.ladder.orders_at_price_pool.next_free_index
    pub same_sizes :
        (t.book.ladder.orders_pool.size ≡ d.book.ladder.orders_pool.size)
        × (t.book.ladder.orders_at_price_pool.size ≡ d.book.ladder.orders_at_price_pool.size)
    pub first :
        (level_at t.book.ladder d.book.ladder.orders_at_price_pool.next_free_index).first_order
        ≡ some d.book.ladder.orders_pool.next_free_index
    pub levels :
        HasLevels side
          (insert_level
            (goes_before side price d.book.ladder)
            d.book.ladder.orders_at_price_pool.next_free_index
            ns)
          t.book.ladder

  placed-HasPlace :
      (ns : List ℕ) (d : Desk) (k : ℕ)
      → HasPlace
          (resting client client_order ticker side price qty d.book.next_order_id)
          ns
          d.book.ladder
      → HasPlace
          (resting client client_order ticker side price qty d.book.next_order_id)
          ns
          (placed d k).book.ladder
  placed-HasPlace ns d k p = record {
    spare = p.spare;
    unused = p.unused;
    levels =
        HasLevels-same side ns d.book.ladder (placed d k).book.ladder refl (λ i h. refl)
          (λ i h. refl) p.levels;
    fresh = p.fresh;
    room = p.room;
    known_client = p.known_client;
    known_order = p.known_order;
  }

  pub in_block :
      (d : Desk) (k : ℕ)
      → ((placed d k).book.ladder.orders_pool.store
          d.book.ladder.orders_pool.next_free_index).object
        ≡ unlinked d.book.next_order_id
  in_block d k = rw (eq-true {a = d.book.ladder.orders_pool.next_free_index} refl) refl

  pub placed-HasAdded :
      (ns : List ℕ) (d : Desk) (k : ℕ)
      → HasPlace
          (resting client client_order ticker side price qty d.book.next_order_id)
          ns
          d.book.ladder
      → Returns
          (λ _.
            HasAdded d.book.ladder.orders_pool.next_free_index ns
              (resting client client_order ticker side price qty d.book.next_order_id)
              (placed d k))
          (add_order (some d.book.ladder.orders_pool.next_free_index) (placed d k))
  placed-HasAdded ns d k p =
      add_order-HasAdded d.book.ladder.orders_pool.next_free_index ns
        (resting client client_order ticker side price qty d.book.next_order_id) (placed d k)
        (ap (λ l. l.order) (in_block d k)) (placed-HasPlace ns d k p)
