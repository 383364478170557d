-- ===== src/Common/SafeQueue/Fifo.antt =====
-- common/SafeQueue.h as a first-in first-out queue, while it is not full.
use low_latency.Prelude.{
  ℕ, zero, suc, ◌+◌, ◌-◌, ◌%◌, ◌^◌, ◌≤◌, ◌<◌, ◌≡◌, refl, ◌⊎◌, inl, inr, Bool-cases, none, some,
  List, [], ◌∷◌, ◌++◌, ◌==◌, length, if◌then◌else◌, arith, update, ok, fault, assertion,
}
use mathlib.Core.Path.{subst}
use native.Mathlib.Nat.{mod_self, mod-eq_of_lt}
use low_latency.Common.SafeQueue.{SafeQueue, make, push, get_next_read, update_read_index, get_size}

-- The index after `i` in a ring of `n`.
abbrev pub after : (n i : ℕ) → ℕ
after n i = if i + 1 == n then 0 else i + 1

after-eq-mod : (n i : ℕ) → i < n → n ≤ 2 ^ 63 → (i + 1) % 2 ^ 64 % n ≡ after n i
after-eq-mod n i h small =
    let small' : (i + 1) % 2 ^ 64 ≡ i + 1 = omega arith in
    rw small' (elim (Bool-cases (i + 1 == n)) [
      | inl e ↦ let e' : i + 1 ≡ n = ground arith in rw (e, e') (mod_self n)
      | inr e ↦ rw e (mod-eq_of_lt (ground arith))
    ])

module _ {T : Type 0} where
  -- The `n` elements from index `r` on, going round at `size`.
  abbrev pub segment : (store : ℕ → T) (size r n : ℕ) → List T
  segment store size r zero = []
  segment store size r (suc n) = store r ∷ segment store size (after size r) n

  -- What the queue holds, oldest first.
  abbrev pub contents : SafeQueue T → List T
  contents q = segment q.store q.size q.next_read_index q.num_elements

  -- The write index is `num_elements` ahead of the read index, and never meets it from behind.
  pub record IsValid (q : SafeQueue T) : Type 0 where
    pub small : q.size ≤ 2 ^ 63
    pub read_in : q.next_read_index < q.size
    pub write_in : q.next_write_index < q.size
    pub not_full : q.num_elements < q.size
    pub ahead :
        (q.next_write_index ≡ q.next_read_index + q.num_elements)
        ⊎ (q.next_write_index + q.size ≡ q.next_read_index + q.num_elements)

  -- One more element may be written.
  abbrev pub HasRoom : SafeQueue T → Type 0
  HasRoom q = q.num_elements + 1 < q.size

  pub make-IsValid : (n : ℕ) (blank : T) → 0 < n → n ≤ 2 ^ 63 → IsValid (make n blank)
  unfolding make
  make-IsValid n blank h small = ground arith

  -- Writing at the end of a segment that does not fill the ring extends it.
  segment-update :
      (store : ℕ → T) (v : T) (size w n r : ℕ)
      → r < size
      → w < size
      → n < size
      → (w ≡ r + n) ⊎ (w + size ≡ r + n)
      → segment (update store w v) size r (suc n) ≡ segment store size r n ++ (v ∷ [])
  segment-update store v size w zero r hr hw hn a = ground arith
  segment-update store v size w (suc n) r hr hw hn a =
      let next : after size r < size = ground arith in
      let ih =
        segment-update store v size w n (after size r) next hw (omega arith) (ground arith) in
      let same : update store w v r ≡ store r = ground arith in rw (same, ih)

  pub push-IsValid : (v : T) (q : SafeQueue T) → IsValid q → HasRoom q → IsValid (push v q)
  unfolding push
  push-IsValid v q h room = ground (arith, after-eq-mod q.size q.next_write_index)

  pub num_elements-push :
      (v : T) (q : SafeQueue T) → IsValid q → (push v q).num_elements ≡ q.num_elements + 1
  unfolding push
  num_elements-push v q h = omega (arith, h.small, h.not_full)

  pub contents-push :
      (v : T) (q : SafeQueue T)
      → IsValid q
      → HasRoom q
      → contents (push v q) ≡ contents q ++ (v ∷ [])
  unfolding push
  contents-push v q h room =
      let e : (q.num_elements + 1) % 2 ^ 64 ≡ suc q.num_elements = omega (arith, h.small) in
      rw e (
        segment-update q.store v q.size q.next_write_index q.num_elements q.next_read_index
          h.read_in h.write_in h.not_full h.ahead)

  -- Enqueuing appends: with room for one more element a valid queue stays valid, and then holds
  -- what it held with the new element behind it.
  pub push_lem :
      (v : T) (q : SafeQueue T)
      → IsValid q
      → HasRoom q
      → IsValid (push v q) × (contents (push v q) ≡ contents q ++ (v ∷ []))
  push_lem v q h room = (push-IsValid v q h room, contents-push v q h room)

  segment-nil : (store : ℕ → T) (size r n : ℕ) → segment store size r n ≡ [] → n ≡ 0
  segment-nil store size r zero e = refl
  segment-nil store size r (suc n) e = cc

  segment-cons :
      (store : ℕ → T) (size r n : ℕ) {x : T} {xs : List T}
      → segment store size r n ≡ x ∷ xs
      → (m : ℕ) × (n ≡ suc m) × (store r ≡ x) × (segment store size (after size r) m ≡ xs)
  segment-cons store size r zero e = cc
  segment-cons store size r (suc n) e = (n, refl, ground arith, ground arith)

  -- A valid queue that holds nothing reads `nullptr`, and updating its read index fails the
  -- assertion.
  pub read_empty :
      (q : SafeQueue T)
      → IsValid q
      → contents q ≡ []
      → (get_next_read q ≡ none) × (update_read_index q ≡ fault assertion)
  unfolding get_next_read update_read_index
  read_empty q h e =
      let n : q.num_elements ≡ 0 = segment-nil q.store q.size q.next_read_index q.num_elements e in
      (ground arith, ground arith)

  -- The queue after a read index has been updated.
  abbrev pub advanced : SafeQueue T → SafeQueue T
  advanced q = record q {
    next_read_index = (q.next_read_index + 1) % 2 ^ 64 % q.size;
    num_elements = q.num_elements - 1;
  }

  -- Dequeuing takes the oldest element of a valid queue: it is what `GetNextRead` points at, and
  -- after `UpdateReadIndex` the queue is valid and holds the others.
  pub read_cons :
      (q : SafeQueue T) {x : T} {xs : List T}
      → IsValid q
      → contents q ≡ x ∷ xs
      → (get_next_read q ≡ some x)
        × (update_read_index q ≡ ok tt (advanced q))
        × IsValid (advanced q)
        × (contents (advanced q) ≡ xs)
  unfolding get_next_read update_read_index
  read_cons q {xs} h e =
      let (m, n, first, rest) = segment-cons q.store q.size q.next_read_index q.num_elements e in
      let next = after-eq-mod q.size q.next_read_index h.read_in h.small in
      (
        ground arith,
        ground arith,
        ground arith,
        rw (next, n)
            (subst (λ k. segment q.store q.size (after q.size q.next_read_index) k ≡ xs) (less m)
              rest),
      )
    where
      less : (m : ℕ) → m ≡ suc m - 1
      less m = omega arith

  -- One element too many in a valid queue, which then counts as many as the ring has slots: the
  -- write index meets the read index, so that `GetNextRead` finds nothing.
  pub push_full :
      (v : T) (q : SafeQueue T)
      → IsValid q
      → q.num_elements + 1 ≡ q.size
      → (get_next_read (push v q) ≡ none) × (get_size (push v q) ≡ q.size)
  unfolding push get_next_read get_size
  push_full v q h full =
      let next = after-eq-mod q.size q.next_write_index h.write_in h.small in
      (rw next (ground arith), omega (arith, h.small))

  length-segment : (store : ℕ → T) (size r n : ℕ) → length (segment store size r n) ≡ n
  length-segment store size r zero = refl
  length-segment store size r (suc n) = omega (arith, length-segment store size (after size r) n)

  -- The count is the number of elements held.
  pub length-contents : (q : SafeQueue T) → length (contents q) ≡ q.num_elements
  length-contents q = length-segment q.store q.size q.next_read_index q.num_elements

  -- Room for `n` more elements.
  abbrev pub HasRoomFor : ℕ → SafeQueue T → Type 0
  HasRoomFor n q = q.num_elements + n < q.size
