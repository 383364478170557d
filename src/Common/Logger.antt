-- ===== src/Common/Logger.antt =====
-- common/Logger.h: a log is a queue of elements, one for each character and number, that a thread of
-- its own writes to a file. How the library prints a number is a parameter; the file is a list of
-- bytes. The two threads take turns by whole calls, and the pauses of a millisecond are left out.
pub mod Queued
pub mod Written
use low_latency.Prelude.{
  ℕ, zero, suc, Bool, true, false, List, [], ◌∷◌, ◌++◌, ◌==◌, none, some, ◌^◌, ◌-◌, ltb,
  if◌then◌else◌, Cmd, out_of_fuel, pure, get, modify, within, ◌>>=◌, ◌>>◌,
}
use low_latency.Prelude.Int.{ℤ, pos, negsuc}
use low_latency.Common.SafeQueue.{SafeQueue, push, make, get_next_read, get_size, update_read_index}

-- `LogElement`: the tag, and the member of the union that the tag stands for. A character is its
-- byte; `f` is an element of `F` and `d` one of `D`.
pub data LogElement (F D : Type 0) : Type 0 where
  nothing : LogElement F D
  char : ℕ → LogElement F D
  integer : ℤ → LogElement F D
  long_integer : ℤ → LogElement F D
  long_long_integer : ℤ → LogElement F D
  unsigned_integer : ℕ → LogElement F D
  unsigned_long_integer : ℕ → LogElement F D
  unsigned_long_long_integer : ℕ → LogElement F D
  float : F → LogElement F D
  double : D → LogElement F D

-- What `operator<<` of `std::ofstream` writes.
pub record Printer (F D : Type 0) : Type 0 where
  pub print_int : ℤ → List ℕ
  pub print_float : F → List ℕ
  pub print_double : D → List ℕ

-- An argument of `Log`, by the overload of `PushValue` that takes it; `text` is both that for
-- `char const *` and that for `std::string`, which passes on its bytes.
pub data Argument (F D : Type 0) : Type 0 where
  element : LogElement F D → Argument F D
  text : List ℕ → Argument F D

pub record QuickLogger (F D : Type 0) : Type 0 where
  pub queue : SafeQueue (LogElement F D)
  pub output_stream : List ℕ

-- The number that the bits of an `unsigned long` stand for as a `long`.
abbrev pub signed64 : ℕ → ℤ
signed64 w = if ltb w (2 ^ 63) then pos w else negsuc (2 ^ 64 - w - 1)

module _ {F D : Type 0} where
  -- The constructor, with the file open; its queue has 2 ^ 23 slots.
  unfoldable pub make_logger : QuickLogger F D
  unfolding make
  make_logger = record { queue = make (2 ^ 23) nothing; output_stream = [] }

  unfoldable pub push_element : LogElement F D → QuickLogger F D → QuickLogger F D
  push_element e l = record l { queue = push e l.queue }

  -- `while (*c)`: the characters up to the first that is 0.
  unfoldable pub push_text : List ℕ → QuickLogger F D → QuickLogger F D
  unfolding push_element
  push_text [] l = l
  push_text (c ∷ cs) l =
      let rest = push_text cs (push_element (char c) l) in if c == 0 then l else rest

  unfoldable pub push_value : Argument F D → QuickLogger F D → QuickLogger F D
  unfolding push_element push_text
  push_value (element e) = push_element e
  push_value (text cs) = push_text cs

  -- `Log`
  unfoldable pub log : List (Argument F D) → QuickLogger F D → QuickLogger F D
  unfolding push_value
  log [] l = l
  log (a ∷ as_) l = log as_ (push_value a l)

  module _ (printer : Printer F D) where
    open printer use {print_int, print_float, print_double}

    -- The `switch` of `FlushQueue`: the case of an `unsigned long` reads the member for `long`.
    unfoldable pub log_value : LogElement F D → List ℕ
    log_value nothing = []
    log_value (char c) = c ∷ []
    log_value (integer i) = print_int i
    log_value (long_integer i) = print_int i
    log_value (long_long_integer i) = print_int i
    log_value (unsigned_integer n) = print_int (pos n)
    log_value (unsigned_long_integer n) = print_int (signed64 n)
    log_value (unsigned_long_long_integer n) = print_int (pos n)
    log_value (float x) = print_float x
    log_value (double x) = print_double x

    -- The `for` of `FlushQueue`, on fuel.
    unfoldable pub flush_queue : ℕ → Cmd (QuickLogger F D) (Unit {0})
    unfolding log_value get_next_read get_size update_read_index
    flush_queue zero = λ _. out_of_fuel
    flush_queue (suc fuel) = do
      l ← get
      elim (get_next_read l.queue) [
        | none ↦ pure tt
        | some e ↦ elim (get_size l.queue == 0) [
          | true ↦ pure tt
          | false ↦ do
            modify (λ m. record m { output_stream = m.output_stream ++ log_value e })
            within (λ m. m.queue) (λ q m. record m { queue = q }) update_read_index
            flush_queue fuel
        ]
      ]
