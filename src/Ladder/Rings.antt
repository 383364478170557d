-- ===== src/Ladder/Rings.antt =====
-- Rings of doubly linked nodes, such as those of exchange/matcher/MEOrderBook.cpp, as lists of
-- addresses: what the two links of each node say, and how they change.
use low_latency.Prelude.{
  ◌∈◌, ◌∉◌, AreDistinct, ne_of_mem, ℕ, ◌≡◌, ◌≢◌, refl, true, some, List, [], ◌∷◌, ◌++◌, ◌==◌, arith,
  Ptr, ◌∙◌, if◌then◌else◌, eq-false, none,
}

-- The last of `p ∷ xs`.
abbrev pub last : ℕ → List ℕ → ℕ
last p [] = p
last p (x ∷ xs) = last x xs

-- From `p` the links lead through `xs` to `q`, and back.
abbrev pub Trail : (next prev : ℕ → Ptr) → ℕ → List ℕ → ℕ → Type 0
Trail next prev p [] q = (next p ≡ some q) × (prev q ≡ some p)
Trail next prev p (x ∷ xs) q = (next p ≡ some x) × (prev x ≡ some p) × Trail next prev x xs q

pub last-mem : (p : ℕ) (xs : List ℕ) → last p xs ∈ (p ∷ xs)
last-mem p [] = ground arith
last-mem p (x ∷ xs) = ground (arith, last-mem x xs)

module _ (next prev : ℕ → Ptr) where
  Trail-append :
      (p : ℕ) (xs : List ℕ) (y : ℕ) (ys : List ℕ) (q : ℕ)
      → Trail next prev p xs y
      → Trail next prev y ys q
      → Trail next prev p (xs ++ (y ∷ ys)) q
  Trail-append p [] y ys q (n, b) t = (n, b, t)
  Trail-append p (x ∷ xs) y ys q (n, b, s) t = (n, b, Trail-append x xs y ys q s t)

  pub Trail-split :
      (p : ℕ) (xs : List ℕ) (y : ℕ) (ys : List ℕ) (q : ℕ)
      → Trail next prev p (xs ++ (y ∷ ys)) q
      → Trail next prev p xs y × Trail next prev y ys q
  Trail-split p [] y ys q (n, b, t) = ((n, b), t)
  Trail-split p (x ∷ xs) y ys q (n, b, s) = let (l, r) = Trail-split x xs y ys q s in ((n, b, l), r)

  -- A ring, seen from another of its nodes.
  pub Trail-rotate :
      (p : ℕ) (xs : List ℕ) (y : ℕ) (ys : List ℕ)
      → Trail next prev p (xs ++ (y ∷ ys)) p
      → Trail next prev y (ys ++ (p ∷ xs)) y
  Trail-rotate p xs y ys r =
      let (before, after) = Trail-split p xs y ys p r in Trail-append y ys p xs y after before

  pub Trail-end :
      (p : ℕ) (xs : List ℕ) (q : ℕ)
      → Trail next prev p xs q
      → (next (last p xs) ≡ some q) × (prev q ≡ some (last p xs))
  Trail-end p [] q r = r
  Trail-end p (x ∷ xs) q (_, _, r) = Trail-end x xs q r

  -- New links that lead the last node of a path to another end.
  pub Trail-redirect :
      (next' prev' : ℕ → Ptr) (p : ℕ) (xs : List ℕ) (q z : ℕ)
      → AreDistinct (p ∷ xs)
      → ((i : ℕ) → i ∈ (p ∷ xs) → i ≢ last p xs → next' i ≡ next i)
      → ((i : ℕ) → i ∈ xs → prev' i ≡ prev i)
      → next' (last p xs) ≡ some z
      → prev' z ≡ some (last p xs)
      → Trail next prev p xs q
      → Trail next' prev' p xs z
  Trail-redirect next' prev' p [] q z d same_next same_prev to from r = (to, from)
  Trail-redirect next' prev' p (x ∷ xs) q z (out, d) same_next same_prev to from (n, b, r) = (
    same_next p (ground arith) (λ e. ne_of_mem (x ∷ xs) (last-mem x xs) out (ground arith)) ∙ n,
    same_prev x (ground arith) ∙ b,
    Trail-redirect next' prev' x xs q z d (λ i h. same_next i (ground arith))
        (λ i h. same_prev i (ground arith)) to from r,
  )

module _ (next prev : ℕ → Ptr) where
  -- `new` is put in front of `t`, which is at the end of the ring, seen from `t`.
  pub Trail-insert :
      (next' prev' : ℕ → Ptr) (t : ℕ) (zs : List ℕ) (new : ℕ)
      → AreDistinct (t ∷ zs)
      → new ∉ (t ∷ zs)
      → ((i : ℕ)
          → next' i ≡ (if i == last t zs then some new else (if i == new then some t else next i)))
      → ((i : ℕ)
          → prev' i
            ≡ (if i == t then some new else (if i == new then some (last t zs) else prev i)))
      → Trail next prev t zs t
      → Trail next' prev' t (zs ++ (new ∷ [])) t
  Trail-insert next' prev' t zs new d fresh en ep r =
      let ne = ne_of_mem (t ∷ zs) (last-mem t zs) fresh in
      let self : (last t zs == last t zs) ≡ true = ground arith in
      Trail-append next' prev' t zs new [] t
        (Trail-redirect next prev next' prev' t zs t new d
          (λ i h k.
            let other = ne_of_mem (t ∷ zs) h fresh in en i ∙ rw (eq-false k, eq-false other) refl)
          (λ i h.
            let first = ne_of_mem zs h d.0 in
            let other = ne_of_mem {a = i} (t ∷ zs) (ground (arith, h)) fresh in
            ep i ∙ rw (eq-false first, eq-false other) refl)
          (en (last t zs) ∙ rw self refl) (ep new ∙ ground (arith, fresh)) r)
        (en new ∙ ground (arith, ne), ep t ∙ ground arith)

  -- `t`, which is at the end of the ring seen from `t`, is taken out of it.
  Trail-remove :
      (next' prev' : ℕ → Ptr) (t z : ℕ) (zs : List ℕ)
      → AreDistinct (t ∷ z ∷ zs)
      → ((i : ℕ) → next' i ≡ (if i == t then none else (if i == last z zs then some z else next i)))
      → ((i : ℕ)
          → prev' i ≡ (if i == t then none else (if i == z then some (last z zs) else prev i)))
      → Trail next prev t (z ∷ zs) t
      → Trail next' prev' z zs z
  Trail-remove next' prev' t z zs (out, d) en ep (_, _, r) =
      let self : (last z zs == last z zs) ≡ true = ground arith in
      let ne = ne_of_mem (z ∷ zs) (last-mem z zs) out in
      Trail-redirect next prev next' prev' z zs t z d
        (λ i h k. en i ∙ rw (eq-false (ne_of_mem (z ∷ zs) h out), eq-false k) refl)
        (λ i h.
          let other = ne_of_mem {a = i} (z ∷ zs) (ground (arith, h)) out in
          let first = ne_of_mem zs h d.0 in ep i ∙ rw (eq-false other, eq-false first) refl)
        (en (last z zs) ∙ rw (eq-false ne, self) refl) (ep z ∙ ground (arith, out)) r
