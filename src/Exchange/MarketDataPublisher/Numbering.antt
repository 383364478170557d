-- ===== src/Exchange/MarketDataPublisher/Numbering.antt =====
-- The stream that exchange/market_data/MarketDataPublisher.cpp makes of the queue of updates.
use low_latency.Prelude.{
  ℕ, suc, ◌+◌, ◌≡◌, ◌≢◌, refl, sym, ◌∙◌, ap, List, [], ◌∷◌, ◌++◌, length, eq-true, eq-false, arith,
  ok, and_then-ok, test-true, test-false, choice-some,
}
use mathlib.Core.List.{append_assoc, append-nil}
use low_latency.Common.Types.{u64}
use low_latency.Common.Messages.{MeMarketUpdate, MpdMarketUpdate}
use low_latency.Common.SafeQueue.{SafeQueue, push, get_size, update_read_index}
use low_latency.Common.SafeQueue.Fifo.{
  contents, IsValid, HasRoom, HasRoomFor, advanced, push-IsValid, contents-push, num_elements-push,
  read_cons, length-contents,
}
use low_latency.Exchange.MarketDataPublisher.{
  Packet, MarketDataPublisher, publish_update, publish_updates,
}

-- Updates under consecutive numbers of 64 bits, from `n` on.
abbrev pub numbered : (n : ℕ) → List MeMarketUpdate → List MpdMarketUpdate
numbered n [] = []
numbered n (u ∷ us) = record { sequence_number = n; market_update = u } ∷ numbered (u64 (n + 1)) us

-- What is sent for as many updates.
abbrev pub packets : (n : ℕ) → List MeMarketUpdate → List Packet
packets n [] = []
packets n (u ∷ us) = Packet.sequence n ∷ Packet.stack_bytes ∷ packets (u64 (n + 1)) us

abbrev after_one :
    MeMarketUpdate → SafeQueue MeMarketUpdate → MarketDataPublisher → MarketDataPublisher
after_one u q s = record {
  next_sequence_number = u64 (s.next_sequence_number + 1);
  market_update_queue = q;
  snapshot_queue =
      push (record { sequence_number = s.next_sequence_number; market_update = u })
        s.snapshot_queue;
  outbound = s.outbound ++ (Packet.sequence s.next_sequence_number ∷ Packet.stack_bytes ∷ []);
}

publish_update_lem :
    (u : MeMarketUpdate) (q : SafeQueue MeMarketUpdate) (s : MarketDataPublisher)
    → update_read_index s.market_update_queue ≡ ok tt q
    → publish_update u s ≡ ok tt (after_one u q s)
unfolding publish_update
publish_update_lem u q s e = rw e refl

-- A queue with room for the updates it may pass on, in the states between two rounds.
pub record CanPublish (xs : List MeMarketUpdate) (s : MarketDataPublisher) : Type 0 where
  pub queue_valid : IsValid s.market_update_queue
  pub holds : contents s.market_update_queue ≡ xs
  pub snapshot_valid : IsValid s.snapshot_queue
  pub room : HasRoomFor (length xs) s.snapshot_queue

-- All that waited has been taken, numbered and passed on.
pub record Published (xs : List MeMarketUpdate) (s t : MarketDataPublisher) : Type 0 where
  pub queue_empty : contents t.market_update_queue ≡ []
  pub passed_on :
      contents t.snapshot_queue ≡ contents s.snapshot_queue ++ numbered s.next_sequence_number xs
  pub sent : t.outbound ≡ s.outbound ++ packets s.next_sequence_number xs

-- With valid queues, rounds for all updates that wait and room for them in the snapshot queue,
-- the loop ends: the next numbers have been sent, one for each update and each followed by bytes
-- of a pointer, and the snapshot queue holds the updates numbered, in order and behind what it
-- held.
pub publish_updates-Published :
    (xs : List MeMarketUpdate) (s : MarketDataPublisher)
    → CanPublish xs s
    → (t : MarketDataPublisher) × (publish_updates (suc (length xs)) s ≡ ok tt t) × Published xs s t
unfolding publish_updates get_size push
publish_updates-Published [] s c = (
  s,
  test-true _ _ (eq-true empty) refl,
  record {
    queue_empty = c.holds;
    passed_on = sym (append-nil (contents s.snapshot_queue));
    sent = sym (append-nil s.outbound);
  },
)
  where
    empty : s.market_update_queue.num_elements ≡ 0
    empty = sym (length-contents s.market_update_queue) ∙ ap length c.holds
publish_updates-Published (x ∷ xs) s c =
    let (found, advances, valid, rest) = read_cons s.market_update_queue c.queue_valid c.holds in
    let s₁ = after_one x (advanced s.market_update_queue) s in
    let (t, runs, p) = publish_updates-Published xs s₁ (goes_on valid rest) in
    (
      t,
      test-false _ _ (eq-false nonempty)
          (choice-some _ _ found (and_then-ok _ (publish_update_lem x _ s advances) runs)),
      together t p,
    )
  where
    message : MpdMarketUpdate
    message = record { sequence_number = s.next_sequence_number; market_update = x }

    nonempty : s.market_update_queue.num_elements ≢ 0
    nonempty e =
        let l = sym (length-contents s.market_update_queue) ∙ ap length c.holds in
        absurd (omega (arith, e, l))

    room : HasRoom s.snapshot_queue
    room = omega (arith, c.room)

    appended :
        contents (push message s.snapshot_queue) ≡ contents s.snapshot_queue ++ (message ∷ [])
    appended = contents-push message s.snapshot_queue c.snapshot_valid room

    goes_on :
        IsValid (advanced s.market_update_queue)
        → contents (advanced s.market_update_queue) ≡ xs
        → CanPublish xs (after_one x (advanced s.market_update_queue) s)
    goes_on valid rest = record {
      queue_valid = valid;
      holds = rest;
      snapshot_valid = push-IsValid message s.snapshot_queue c.snapshot_valid room;
      room = omega (arith, c.room, num_elements-push message s.snapshot_queue c.snapshot_valid);
    }

    together :
        (t : MarketDataPublisher)
        → Published xs (after_one x (advanced s.market_update_queue) s) t
        → Published (x ∷ xs) s t
    together t p = record {
      queue_empty = p.queue_empty;
      passed_on =
          p.passed_on
          ∙ ap (λ l. l ++ numbered (u64 (s.next_sequence_number + 1)) xs) appended
          ∙ append_assoc (contents s.snapshot_queue) (message ∷ [])
              (numbered (u64 (s.next_sequence_number + 1)) xs);
      sent =
          p.sent
          ∙ append_assoc s.outbound
              (Packet.sequence s.next_sequence_number ∷ Packet.stack_bytes ∷ [])
              (packets (u64 (s.next_sequence_number + 1)) xs);
    }
