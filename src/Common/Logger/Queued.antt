-- ===== src/Common/Logger/Queued.antt =====
-- What `Log` of common/Logger.h puts into the queue.
use mathlib.Core.List.{append_assoc, append-nil}
use low_latency.Prelude.{
  ℕ, suc, ◌+◌, ◌≡◌, refl, sym, ap, ◌∙◌, Bool-cases, inl, inr, List, [], ◌∷◌, ◌++◌, ◌==◌, length,
  length-append, arith, if◌then◌else◌,
}
use low_latency.Common.SafeQueue.{push}
use low_latency.Common.SafeQueue.Fifo.{
  contents, IsValid, HasRoomFor, push-IsValid, contents-push, length-contents,
}
use low_latency.Common.Logger.{
  LogElement, char, Argument, element, text, QuickLogger, push_element, push_text, push_value, log,
}

-- The characters before the first that is 0.
abbrev pub until_nul : List ℕ → List ℕ
until_nul [] = []
until_nul (c ∷ cs) = if c == 0 then [] else c ∷ until_nul cs

module _ {F D : Type 0} where
  abbrev pub chars : List ℕ → List (LogElement F D)
  chars [] = []
  chars (c ∷ cs) = char c ∷ chars cs

  -- The elements of an argument, and of all.
  unfoldable pub elements_of : Argument F D → List (LogElement F D)
  elements_of (element e) = e ∷ []
  elements_of (text cs) = chars (until_nul cs)

  unfoldable pub all_elements : List (Argument F D) → List (LogElement F D)
  all_elements [] = []
  all_elements (a ∷ as_) = elements_of a ++ all_elements as_

  -- `m` is `l` with `es` at the end of its queue.
  pub record IsQueued (es : List (LogElement F D)) (l m : QuickLogger F D) : Type 0 where
    pub valid : IsValid m.queue
    pub held : contents m.queue ≡ contents l.queue ++ es
    pub same_size : m.queue.size ≡ l.queue.size
    pub same_output : m.output_stream ≡ l.output_stream

  IsQueued-none : (l : QuickLogger F D) → IsValid l.queue → IsQueued [] l l
  IsQueued-none l v = record {
    valid = v;
    held = sym (append-nil (contents l.queue));
    same_size = refl;
    same_output = refl;
  }

  IsQueued-append :
      (xs ys : List (LogElement F D)) (l m n : QuickLogger F D)
      → IsQueued xs l m
      → IsQueued ys m n
      → IsQueued (xs ++ ys) l n
  IsQueued-append xs ys l m n h k = record {
    valid = k.valid;
    held = k.held ∙ ap (λ c. c ++ ys) h.held ∙ append_assoc (contents l.queue) xs ys;
    same_size = k.same_size ∙ h.same_size;
    same_output = k.same_output ∙ h.same_output;
  }

  -- Room for what comes behind what has been queued.
  queued_room :
      (xs : List (LogElement F D)) (k : ℕ) (l m : QuickLogger F D)
      → IsQueued xs l m
      → HasRoomFor (length xs + k) l.queue
      → HasRoomFor k m.queue
  queued_room xs k l m h room = omega (
    arith,
    room,
    length-contents m.queue,
    length-contents l.queue,
    ap length h.held,
    length-append (contents l.queue) xs,
    h.same_size,
  )

  push_element-IsQueued :
      (e : LogElement F D) (l : QuickLogger F D)
      → IsValid l.queue
      → HasRoomFor 1 l.queue
      → IsQueued (e ∷ []) l (push_element e l)
  unfolding push_element push
  push_element-IsQueued e l v room = record {
    valid = push-IsValid e l.queue v room;
    held = contents-push e l.queue v room;
    same_size = refl;
    same_output = refl;
  }

  push_text-IsQueued :
      (cs : List ℕ) (l : QuickLogger F D)
      → IsValid l.queue
      → HasRoomFor (length (chars (until_nul cs))) l.queue
      → IsQueued (chars (until_nul cs)) l (push_text cs l)
  unfolding push_text
  push_text-IsQueued [] l v room = IsQueued-none l v
  push_text-IsQueued (c ∷ cs) l v room = elim (Bool-cases (c == 0)) [
    | inl e ↦ rw e (IsQueued-none l v)
    | inr e ↦
        let room' : HasRoomFor (suc (length (chars (until_nul cs)))) l.queue = rw e at room in
        let one = push_element-IsQueued (char c) l v (omega (arith, room')) in
        rw e (
          IsQueued-append (char c ∷ []) (chars (until_nul cs)) l (push_element (char c) l) _ one (
            push_text-IsQueued cs (push_element (char c) l) one.valid (
              queued_room (char c ∷ []) (length (chars (until_nul cs))) l (push_element (char c) l)
                one (omega (arith, room')))))
  ]

  push_value-IsQueued :
      (a : Argument F D) (l : QuickLogger F D)
      → IsValid l.queue
      → HasRoomFor (length (elements_of a)) l.queue
      → IsQueued (elements_of a) l (push_value a l)
  unfolding push_value elements_of
  push_value-IsQueued (element e) l v room = push_element-IsQueued e l v room
  push_value-IsQueued (text cs) l v room = push_text-IsQueued cs l v room

  -- `Log` queues the elements of its arguments.
  pub log-IsQueued :
      (as_ : List (Argument F D)) (l : QuickLogger F D)
      → IsValid l.queue
      → HasRoomFor (length (all_elements as_)) l.queue
      → IsQueued (all_elements as_) l (log as_ l)
  unfolding log all_elements
  log-IsQueued [] l v room = IsQueued-none l v
  log-IsQueued (a ∷ as_) l v room =
      let split = length-append (elements_of a) (all_elements as_) in
      let one = push_value-IsQueued a l v (omega (arith, room, split)) in
      IsQueued-append (elements_of a) (all_elements as_) l (push_value a l) _ one (
        log-IsQueued as_ (push_value a l) one.valid (
          queued_room (elements_of a) (length (all_elements as_)) l (push_value a l) one
            (omega (arith, room, split))))
