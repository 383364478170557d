-- ===== src/Prelude/Exec.antt =====
-- Running C++ on an explicit state: a run ends with a value and a state, stops the program at a
-- fault, or uses up the rounds that a loop was given.
use Prim.Native.Nat.{ℕ}
use mathlib.Core.Path.{◌≡◌, refl, sym, subst}
use mathlib.Core.Bool.{Bool, true, false}
use mathlib.Core.Option.{Option, none, some}

-- A pointer is `nullptr` or an index into the pool that its target lives in.
abbrev pub Ptr : Type 0
Ptr = Option ℕ

-- Why a thread stops: a read or write through `nullptr`, an index outside a `std::array` or a
-- pool, an exception that nobody catches, a failed `assert` (also that of `CHECK_FATAL`).
pub data Fault : Type 0 where
  null_pointer out_of_range uncaught assertion : Fault

pub data Run (S A : Type 0) : Type 0 where
  ok : A → S → Run S A
  fault : Fault → Run S A
  out_of_fuel : Run S A

abbrev pub Cmd : Type 0 → Type 0 → Type 0
Cmd S A = S → Run S A

abbrev pub pure : {S A : Type 0} → A → Cmd S A
pure = ok

abbrev pub stop : {S A : Type 0} → Fault → Cmd S A
stop f _ = fault f

module _ {S A B : Type 0} where
  abbrev pub and_then : Run S A → (A → Cmd S B) → Run S B
  and_then (ok a s) k = k a s
  and_then (fault f) k = fault f
  and_then out_of_fuel k = out_of_fuel

  infixl 5 ◌>>=◌ ◌>>◌
  abbrev pub ◌>>=◌ : Cmd S A → (A → Cmd S B) → Cmd S B
  m >>= k = λ s. and_then (m s) k

  abbrev pub ◌>>◌ : Cmd S A → Cmd S B → Cmd S B
  m >> n = m >>= λ _. n

module _ {S A B : Type 0} {r : Run S A} where
  pub and_then-ok :
      (k : A → Cmd S B) {a : A} {s : S} {t : Run S B} → r ≡ ok a s → k a s ≡ t → and_then r k ≡ t
  and_then-ok k {a} {s} {t} e f = subst (λ x. and_then x k ≡ t) (sym e) f

  pub and_then-fault : (k : A → Cmd S B) {f : Fault} → r ≡ fault f → and_then r k ≡ fault f
  and_then-fault k {f} e = subst (λ x. and_then x k ≡ fault f) (sym e) refl

  pub and_then-out_of_fuel : (k : A → Cmd S B) → r ≡ out_of_fuel → and_then r k ≡ out_of_fuel
  and_then-out_of_fuel k e = subst (λ x. and_then x k ≡ out_of_fuel) (sym e) refl

-- The two cases of a test, for a command that is run.
module _ {S A : Type 0} {b : Bool} (m n : Cmd S A) {s : S} {t : Run S A} where
  pub test-true : b ≡ true → m s ≡ t → (elim b as (λ _. Cmd S A) [ true ↦ m | false ↦ n ]) s ≡ t
  test-true e f = subst (λ x. (elim x as (λ _. Cmd S A) [ true ↦ m | false ↦ n ]) s ≡ t) (sym e) f

  pub test-false : b ≡ false → n s ≡ t → (elim b as (λ _. Cmd S A) [ true ↦ m | false ↦ n ]) s ≡ t
  test-false e f = subst (λ x. (elim x as (λ _. Cmd S A) [ true ↦ m | false ↦ n ]) s ≡ t) (sym e) f

-- The two cases of a pointer that a queue returns, for a command that is run.
module _ {S A B : Type 0} {o : Option A} (m : Cmd S B) (n : A → Cmd S B) {s : S} {t : Run S B} where
  pub choice-none :
      o ≡ none → m s ≡ t → (elim o as (λ _. Cmd S B) [ none ↦ m | some x ↦ n x ]) s ≡ t
  choice-none e f =
      subst (λ x. (elim x as (λ _. Cmd S B) [ none ↦ m | some y ↦ n y ]) s ≡ t) (sym e) f

  pub choice-some :
      {a : A}
      → o ≡ some a
      → n a s ≡ t
      → (elim o as (λ _. Cmd S B) [ none ↦ m | some x ↦ n x ]) s ≡ t
  choice-some e f =
      subst (λ x. (elim x as (λ _. Cmd S B) [ none ↦ m | some y ↦ n y ]) s ≡ t) (sym e) f

module _ {S : Type 0} where
  abbrev pub get : Cmd S S
  get s = ok s s

  abbrev pub modify : (S → S) → Cmd S (Unit {0})
  modify f s = ok tt (f s)

  -- `CHECK_FATAL` and `assert`.
  abbrev pub check_fatal : Bool → Cmd S (Unit {0})
  check_fatal true = pure tt
  check_fatal false = stop assertion

  abbrev pub when : Bool → Cmd S (Unit {0}) → Cmd S (Unit {0})
  when true m = m
  when false m = pure tt

  -- The target of a pointer that is about to be read or written through.
  abbrev pub deref : Ptr → Cmd S ℕ
  deref none = stop null_pointer
  deref (some i) = pure i

-- A command on a part of the state: the part, and how to put it back.
module _ {S T A : Type 0} where
  abbrev pub put_back : (T → S) → Run T A → Run S A
  put_back f (ok a t) = ok a (f t)
  put_back f (fault e) = fault e
  put_back f out_of_fuel = out_of_fuel

  abbrev pub within : (S → T) → (T → S → S) → Cmd T A → Cmd S A
  within part back m s = put_back (λ t. back t s) (m (part s))
