-- ===== src/Common/Logger/Written.antt =====
-- What the thread of common/Logger.h writes of what is logged.
use mathlib.Core.List.{append_assoc, append-nil}
use low_latency.Prelude.{
  ℕ, zero, suc, ◌≡◌, ◌<◌, ◌≤◌, ◌^◌, refl, sym, ap, ◌∙◌, List, [], ◌∷◌, ◌++◌, ◌==◌, length, false,
  arith, put_back, ltb-true, eq-false,
}
use low_latency.Prelude.Int.{pos}
use low_latency.Prelude.Ensures.{
  Returns, returns, total_after, total_mono, total_false, total_some, total_none,
}
use low_latency.Common.SafeQueue.{get_size}
use low_latency.Common.SafeQueue.Fifo.{
  contents, IsValid, HasRoomFor, read_cons, read_empty, length-contents, advanced,
}
use low_latency.Common.Logger.{
  LogElement, nothing, char, integer, long_integer, long_long_integer, unsigned_integer,
  unsigned_long_integer, unsigned_long_long_integer, float, double, Printer, Argument, element,
  text, QuickLogger, log, log_value, flush_queue, signed64,
}
use low_latency.Common.Logger.Queued.{until_nul, chars, elements_of, all_elements, log-IsQueued}

signed64-small : (n : ℕ) → n < 2 ^ 63 → signed64 n ≡ pos n
signed64-small n h = rw (ltb-true h) refl

module _ {F D : Type 0} where
  module _ (printer : Printer F D) where
    open printer use {print_int, print_float, print_double}

    written : List (LogElement F D) → List ℕ
    written [] = []
    written (e ∷ es) = log_value printer e ++ written es

    -- All that is queued is written, in order.
    flush_queue-written :
        (es : List (LogElement F D)) (fuel : ℕ) (l : QuickLogger F D)
        → IsValid l.queue
        → contents l.queue ≡ es
        → length es ≤ fuel
        → Returns
            (λ _ t. (contents t.queue ≡ []) × (t.output_stream ≡ l.output_stream ++ written es))
            (flush_queue printer (suc fuel) l)
    unfolding flush_queue written get_size
    flush_queue-written [] fuel l v e enough =
        total_none _ _ (read_empty l.queue v e).0 (returns (e, sym (append-nil l.output_stream)))
    flush_queue-written (x ∷ es) zero l v e enough = absurd (omega arith)
    flush_queue-written (x ∷ es) (suc fuel) l v e enough =
        let (reads, moves, v', e') = read_cons l.queue v e in
        let some_left : (l.queue.num_elements == 0) ≡ false =
          eq-false (omega (arith, length-contents l.queue, ap length e)) in
        total_some _ _ reads (
          total_false _ _ some_left (
            total_after _
              (ap
                (put_back (λ q. record l {
                  output_stream = l.output_stream ++ log_value printer x;
                  queue = q;
                }))
                moves)
              (total_mono
                (flush_queue-written es fuel
                  (record l {
                    output_stream = l.output_stream ++ log_value printer x;
                    queue = advanced l.queue;
                  })
                  v' e' (omega (arith, enough)))
                λ _ t (empty, out).
                  (empty, out ∙ append_assoc l.output_stream (log_value printer x) (written es)))))

    -- What a reader of the log expects of an element, and of an argument.
    expected_element : LogElement F D → List ℕ
    expected_element nothing = []
    expected_element (char c) = c ∷ []
    expected_element (integer i) = print_int i
    expected_element (long_integer i) = print_int i
    expected_element (long_long_integer i) = print_int i
    expected_element (unsigned_integer n) = print_int (pos n)
    expected_element (unsigned_long_integer n) = print_int (pos n)
    expected_element (unsigned_long_long_integer n) = print_int (pos n)
    expected_element (float x) = print_float x
    expected_element (double x) = print_double x

    unfoldable pub expected : List (Argument F D) → List ℕ
    unfolding expected_element
    expected [] = []
    expected (element e ∷ as_) = expected_element e ++ expected as_
    expected (text cs ∷ as_) = until_nul cs ++ expected as_

    -- No `unsigned long` among the arguments is 2 ^ 63 or more.
    abbrev pub AreSmall : List (Argument F D) → Type 0
    AreSmall [] = Unit
    AreSmall (element (unsigned_long_integer n) ∷ as_) = (n < 2 ^ 63) × AreSmall as_
    AreSmall (element _ ∷ as_) = AreSmall as_
    AreSmall (text _ ∷ as_) = AreSmall as_

    written-append : (xs ys : List (LogElement F D)) → written (xs ++ ys) ≡ written xs ++ written ys
    unfolding written
    written-append [] ys = refl
    written-append (x ∷ xs) ys =
        ap (λ l. log_value printer x ++ l) (written-append xs ys)
        ∙ sym (append_assoc (log_value printer x) (written xs) (written ys))

    written-chars : (cs : List ℕ) → written (chars cs) ≡ cs
    unfolding written log_value
    written-chars [] = refl
    written-chars (c ∷ cs) = ap (◌∷◌ c) (written-chars cs)

    written-expected :
        (as_ : List (Argument F D)) → AreSmall as_ → written (all_elements as_) ≡ expected as_
    unfolding written log_value expected all_elements elements_of
    written-expected [] h = refl
    written-expected (text cs ∷ as_) h =
        written-append (chars (until_nul cs)) (all_elements as_)
        ∙ ap (λ l. l ++ written (all_elements as_)) (written-chars (until_nul cs))
        ∙ ap (λ l. until_nul cs ++ l) (written-expected as_ h)
    written-expected (element (unsigned_long_integer n) ∷ as_) (small, h) =
        ap (λ i. print_int i ++ written (all_elements as_)) (signed64-small n small)
        ∙ ap (λ l. print_int (pos n) ++ l) (written-expected as_ h)
    written-expected (element nothing ∷ as_) h = written-expected as_ h
    written-expected (element (char c) ∷ as_) h = ap (◌∷◌ c) (written-expected as_ h)
    written-expected (element (integer i) ∷ as_) h =
        ap (λ l. print_int i ++ l) (written-expected as_ h)
    written-expected (element (long_integer i) ∷ as_) h =
        ap (λ l. print_int i ++ l) (written-expected as_ h)
    written-expected (element (long_long_integer i) ∷ as_) h =
        ap (λ l. print_int i ++ l) (written-expected as_ h)
    written-expected (element (unsigned_integer n) ∷ as_) h =
        ap (λ l. print_int (pos n) ++ l) (written-expected as_ h)
    written-expected (element (unsigned_long_long_integer n) ∷ as_) h =
        ap (λ l. print_int (pos n) ++ l) (written-expected as_ h)
    written-expected (element (float x) ∷ as_) h =
        ap (λ l. print_float x ++ l) (written-expected as_ h)
    written-expected (element (double x) ∷ as_) h =
        ap (λ l. print_double x ++ l) (written-expected as_ h)

    -- What is logged is what is written: from an empty, well-formed queue with room for the
    -- elements of the arguments, a call of `Log` and then the loop of `FlushQueue`, with one round
    -- of fuel more than there are elements, append the text of the arguments to the file, in
    -- order, and leave the queue empty, if no `unsigned long` among them is 2 ^ 63 or more. A text
    -- ends at its first character 0.
    pub log-flush_queue :
        (as_ : List (Argument F D)) (fuel : ℕ) (l : QuickLogger F D)
        → IsValid l.queue
        → contents l.queue ≡ []
        → HasRoomFor (length (all_elements as_)) l.queue
        → AreSmall as_
        → length (all_elements as_) ≤ fuel
        → Returns
            (λ _ t. (t.output_stream ≡ l.output_stream ++ expected as_) × (contents t.queue ≡ []))
            (flush_queue printer (suc fuel) (log as_ l))
    log-flush_queue as_ fuel l v e room small enough =
        let q = log-IsQueued as_ l v room in
        total_mono
          (flush_queue-written (all_elements as_) fuel (log as_ l) q.valid
            (q.held ∙ ap (λ c. c ++ all_elements as_) e) enough)
          λ _ t (empty, out). (
            out
                ∙ ap (λ o. o ++ written (all_elements as_)) q.same_output
                ∙ ap (λ w. l.output_stream ++ w) (written-expected as_ small),
            empty,
          )
