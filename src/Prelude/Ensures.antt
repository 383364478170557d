-- ===== src/Prelude/Ensures.antt =====
-- Partial correctness of a run, what holds if it ends with a value, and total correctness.
use mathlib.Core.Path.{◌≡◌, refl, sym, subst, subst₂}
use mathlib.Core.Option.{Option, none, some}
use mathlib.Core.Bool.{Bool, true, false}
use low_latency.Prelude.Tests.{if◌then◌else◌}
use low_latency.Prelude.Exec.{
  Run, ok, fault, out_of_fuel, Fault, Cmd, and_then, put_back, within, when,
}

pub data Ensures {S A : Type 0} (P : A → S → Type 0) : Run S A → Type 0 where
  done : {a : A} {s : S} → P a s → Ensures P (ok a s)
  stopped : {f : Fault} → Ensures P (fault f)
  unfinished : Ensures P out_of_fuel

-- Total correctness: the run ends with a value, and this holds of it.
pub data Returns {S A : Type 0} (P : A → S → Type 0) : Run S A → Type 0 where
  returns : {a : A} {s : S} → P a s → Returns P (ok a s)

-- A command keeps a property of the state.
abbrev pub Keeps : {S A : Type 0} → (S → Type 0) → Cmd S A → Type 0
Keeps {S} I m = (s : S) → I s → Ensures (λ _ t. I t) (m s)

module _ {S A : Type 0} {a b : A} {s t : S} (e : ok a s ≡ ok b t) where
  ok_value : a ≡ b
  ok_value = cc

  ok_state : s ≡ t
  ok_state = cc

pub branch_when :
    {S : Type 0} {Q : Unit {0} → S → Type 0} (b : Bool) (m : Cmd S (Unit {0})) (s : S)
    → Q tt s
    → Ensures Q (m s)
    → Ensures Q (when b m s)
branch_when true m s h k = k
branch_when false m s h k = done h

module _ {S A : Type 0} {P : A → S → Type 0} where
  pub bind :
      {B : Type 0} {Q : B → S → Type 0} {r : Run S A} {k : A → Cmd S B}
      → Ensures P r
      → ((a : A) (s : S) → P a s → Ensures Q (k a s))
      → Ensures Q (and_then r k)
  bind (done p) next = next _ _ p
  bind stopped next = stopped
  bind unfinished next = unfinished

  pub mono :
      {Q : A → S → Type 0} {r : Run S A}
      → Ensures P r
      → ((a : A) (s : S) → P a s → Q a s)
      → Ensures Q r
  mono (done p) weaken = done (weaken _ _ p)
  mono stopped weaken = stopped
  mono unfinished weaken = unfinished

  -- What holds of a run that is known to end.
  pub ends : {r : Run S A} {a : A} {s : S} → Ensures P r → r ≡ ok a s → P a s
  ends (done p) e = subst₂ P (ok_value e) (ok_state e) p
  ends stopped e = cc
  ends unfinished e = cc

  pub lift :
      {T : Type 0} {Q : A → T → Type 0} {r : Run S A} (f : S → T)
      → Ensures P r
      → ((a : A) (s : S) → P a s → Q a (f s))
      → Ensures Q (put_back f r)
  lift f (done p) up = done (up _ _ p)
  lift f stopped up = stopped
  lift f unfinished up = unfinished

  pub branch :
      (b : Bool) (m n : Cmd S A) (s : S)
      → Ensures P (m s)
      → Ensures P (n s)
      → Ensures P ((elim b as (λ _. Cmd S A) [ true ↦ m | false ↦ n ]) s)
  branch true m n s h k = h
  branch false m n s h k = k

  pub branch_if :
      (b : Bool) (m n : Cmd S A) (s : S)
      → Ensures P (m s)
      → Ensures P (n s)
      → Ensures P ((if b then m else n) s)
  branch_if true m n s h k = h
  branch_if false m n s h k = k

module _ {S T A : Type 0} {I : S → Type 0} {J : T → Type 0} where
  -- A command on a part of the state keeps what the part and the rest keep.
  pub within-Keeps :
      (part : S → T) (back : T → S → S) (m : Cmd T A)
      → ((s : S) → I s → J (part s))
      → ((s : S) (t : T) → I s → J t → I (back t s))
      → Keeps J m
      → Keeps I (within part back m)
  within-Keeps part back m down up keep s h =
      lift (λ t. back t s) (keep (part s) (down s h)) λ a t k. up s t h k

module _ {S A B : Type 0} {P : B → S → Type 0} {o : Option A} (m : Cmd S B) (n : A → Cmd S B)
    {s : S} where
  pub choice-none :
      o ≡ none
      → Ensures P (m s)
      → Ensures P ((elim o as (λ _. Cmd S B) [ none ↦ m | some x ↦ n x ]) s)
  choice-none e h =
      subst (λ x. Ensures P ((elim x as (λ _. Cmd S B) [ none ↦ m | some y ↦ n y ]) s)) (sym e) h

  pub choice-some :
      {a : A}
      → o ≡ some a
      → Ensures P (n a s)
      → Ensures P ((elim o as (λ _. Cmd S B) [ none ↦ m | some x ↦ n x ]) s)
  choice-some e h =
      subst (λ x. Ensures P ((elim x as (λ _. Cmd S B) [ none ↦ m | some y ↦ n y ]) s)) (sym e) h

module _ {S A B : Type 0} {Q : B → S → Type 0} {r : Run S A} where
  pub total_after :
      (k : A → Cmd S B) {a : A} {s : S} → r ≡ ok a s → Returns Q (k a s) → Returns Q (and_then r k)
  total_after k e h = subst (λ x. Returns Q (and_then x k)) (sym e) h

module _ {S A : Type 0} {P Q : A → S → Type 0} where
  pub total_mono : {r : Run S A} → Returns P r → ((a : A) (s : S) → P a s → Q a s) → Returns Q r
  total_mono (returns p) weaken = returns (weaken _ _ p)

module _ {S A : Type 0} {Q : A → S → Type 0} {b : Bool} (m n : Cmd S A) {s : S} where
  pub total_true :
      b ≡ true → Returns Q (m s) → Returns Q ((elim b as (λ _. Cmd S A) [ true ↦ m | false ↦ n ]) s)
  total_true e h =
      subst (λ x. Returns Q ((elim x as (λ _. Cmd S A) [ true ↦ m | false ↦ n ]) s)) (sym e) h

  pub total_false :
      b ≡ false
      → Returns Q (n s)
      → Returns Q ((elim b as (λ _. Cmd S A) [ true ↦ m | false ↦ n ]) s)
  total_false e h =
      subst (λ x. Returns Q ((elim x as (λ _. Cmd S A) [ true ↦ m | false ↦ n ]) s)) (sym e) h

module _ {S A B : Type 0} {P : A → S → Type 0} {Q : B → S → Type 0} where
  pub total_bind :
      {r : Run S A} (k : A → Cmd S B)
      → Returns P r
      → ((a : A) (s : S) → P a s → Returns Q (k a s))
      → Returns Q (and_then r k)
  total_bind k (returns p) next = next _ _ p

module _ {S T A : Type 0} {P : A → S → Type 0} {Q : A → T → Type 0} where
  pub total_lift :
      {r : Run S A} (f : S → T)
      → Returns P r
      → ((a : A) (s : S) → P a s → Q a (f s))
      → Returns Q (put_back f r)
  total_lift f (returns p) up = returns (up _ _ p)

module _ {S A : Type 0} {P : A → S → Type 0} where
  -- The value and the state that a run ends with.
  pub total_run : {r : Run S A} → Returns P r → (a : A) × (s : S) × (r ≡ ok a s) × P a s
  total_run (returns {a} {s} p) = (a, s, refl, p)

module _ {S A B : Type 0} {P : B → S → Type 0} {o : Option A} (m : Cmd S B) (n : A → Cmd S B)
    {s : S} where
  pub total_none :
      o ≡ none
      → Returns P (m s)
      → Returns P ((elim o as (λ _. Cmd S B) [ none ↦ m | some x ↦ n x ]) s)
  total_none e h =
      subst (λ x. Returns P ((elim x as (λ _. Cmd S B) [ none ↦ m | some y ↦ n y ]) s)) (sym e) h

  pub total_some :
      {a : A}
      → o ≡ some a
      → Returns P (n a s)
      → Returns P ((elim o as (λ _. Cmd S B) [ none ↦ m | some x ↦ n x ]) s)
  total_some e h =
      subst (λ x. Returns P ((elim x as (λ _. Cmd S B) [ none ↦ m | some y ↦ n y ]) s)) (sym e) h
