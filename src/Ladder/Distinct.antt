-- ===== src/Ladder/Distinct.antt =====
-- Lists of addresses without repetition, and the place of a new one in a list: what the rings of
-- exchange/matcher/MEOrderBook.cpp are compared with.
use low_latency.Prelude.{
  has, ◌∈◌, ◌∉◌, AreDistinct, has-append, ℕ, ◌≡◌, refl, Bool, true, false, ◌||◌, List, [], ◌∷◌,
  ◌++◌, ◌==◌, arith, Bool-cases, inl, inr, ◌⊎◌, if◌then◌else◌,
}

abbrev AreDisjoint : List ℕ → List ℕ → Type 0
AreDisjoint xs ys = (a : ℕ) → a ∈ xs → a ∉ ys

AreDisjoint-swap : (xs ys : List ℕ) → AreDisjoint xs ys → AreDisjoint ys xs
AreDisjoint-swap xs ys apart a h = elim (Bool-cases (has a xs)) [
  | inl e ↦ ground (arith, apart a e)
  | inr e ↦ e
]

AreDistinct-append :
    (xs ys : List ℕ) → AreDistinct xs → AreDistinct ys → AreDisjoint xs ys → AreDistinct (xs ++ ys)
AreDistinct-append [] ys d e apart = e
AreDistinct-append (x ∷ xs) ys (out, d) e apart = (
  ground (arith, has-append x xs ys, apart x (ground arith)),
  AreDistinct-append xs ys d e λ a h. apart a (ground arith),
)

AreDistinct-split :
    (xs ys : List ℕ) → AreDistinct (xs ++ ys) → AreDistinct xs × AreDistinct ys × AreDisjoint xs ys
AreDistinct-split [] ys d = (tt, d, λ a h. absurd (ground arith))
AreDistinct-split (x ∷ xs) ys (out, d) =
    let (l, r, apart) = AreDistinct-split xs ys d in
    ((ground (arith, has-append x xs ys), l), r, λ a h. ground (arith, has-append x xs ys, apart a))

pub AreDistinct-swap : (xs ys : List ℕ) → AreDistinct (xs ++ ys) → AreDistinct (ys ++ xs)
AreDistinct-swap xs ys d =
    let (l, r, apart) = AreDistinct-split xs ys d in
    AreDistinct-append ys xs r l (AreDisjoint-swap xs ys apart)

-- The list with `new` in front of the first element that `before` holds of, or else at its end.
unfoldable pub insert_level : (before : ℕ → Bool) (new : ℕ) → List ℕ → List ℕ
insert_level before new [] = new ∷ []
insert_level before new (x ∷ xs) = if before x then new ∷ x ∷ xs else x ∷ insert_level before new xs

module _ (before : ℕ → Bool) (new : ℕ) where
  pub has-insert_level :
      (a : ℕ) (xs : List ℕ) → has a (insert_level before new xs) ≡ ((a == new) || has a xs)
  unfolding insert_level
  has-insert_level a [] = refl
  has-insert_level a (x ∷ xs) = ground (arith, has-insert_level a xs)

  AreDistinct-insert_level :
      (xs : List ℕ) → AreDistinct xs → new ∉ xs → AreDistinct (insert_level before new xs)
  unfolding insert_level
  AreDistinct-insert_level [] d h = (refl, tt)
  AreDistinct-insert_level (x ∷ xs) (out, d) h = elim (Bool-cases (before x)) [
    | inl e ↦ rw (e, insert_level) (h, (out, d))
    | inr e ↦
        rw (e, insert_level)
          (ground (arith, has-insert_level x xs), AreDistinct-insert_level xs d (ground arith))
  ]

  pub insert_level-here :
      (x : ℕ) (xs : List ℕ) → before x ≡ true → insert_level before new (x ∷ xs) ≡ new ∷ x ∷ xs
  unfolding insert_level
  insert_level-here x xs e = rw e refl

  pub insert_level-past :
      (x : ℕ) (xs : List ℕ)
      → before x ≡ false
      → insert_level before new (x ∷ xs) ≡ x ∷ insert_level before new xs
  unfolding insert_level
  insert_level-past x xs e = rw e refl

  pub insert_level-nil : insert_level before new [] ≡ new ∷ []
  unfolding insert_level
  insert_level-nil = refl

  -- The first of the list with the new element is that or one of the list.
  pub insert_level-first :
      (xs : List ℕ)
      → (m : ℕ) × (rest : List ℕ) × (insert_level before new xs ≡ m ∷ rest) × ((m ≡ new) ⊎ (m ∈ xs))
  insert_level-first [] = (new, [], insert_level-nil, inl refl)
  insert_level-first (x ∷ xs) = elim (Bool-cases (before x)) [
    | inl e ↦ (new, x ∷ xs, insert_level-here x xs e, inl refl)
    | inr e ↦ (x, insert_level before new xs, insert_level-past x xs e, inr (ground arith))
  ]

pub insert_level-same :
    (before after : ℕ → Bool) (new : ℕ) (xs : List ℕ)
    → ((i : ℕ) → i ∈ xs → before i ≡ after i)
    → insert_level before new xs ≡ insert_level after new xs
unfolding insert_level
insert_level-same before after new [] same = refl
insert_level-same before after new (x ∷ xs) same =
    let tail = insert_level-same before after new xs λ i h. same i (ground arith) in
    let first : before x ≡ after x = same x (ground arith) in
    λ k. if first k then new ∷ x ∷ xs else x ∷ tail k
