-- ===== src/Common/MemoryPool/Allocation.antt =====
-- What `Allocate` and `Deallocate` of common/MemoryPool.h do to a pool.
use low_latency.Prelude.{
  ℕ, zero, suc, ◌+◌, ◌-◌, leb, ◌≤◌, ◌<◌, ◌≡◌, ◌≢◌, refl, ◌⊎◌, inl, inr, true, false, some,
  Bool-cases, update, arith, ok, out_of_fuel,
}
use low_latency.Common.MemoryPool.{
  MemoryPool, next_index, update_next_free_index, allocate_within, allocate, deallocate,
}

-- `j` is `d` steps ahead of `i` in a pool of `n` blocks.
abbrev Ahead : (n i d j : ℕ) → Type 0
Ahead n i d j = ((i ≤ j) × (j ≡ i + d)) ⊎ ((j < i) × (j + n ≡ i + d))

Ahead-next :
    (n i d j : ℕ) → i < n → j < n → Ahead n i (suc d) j → d < n → Ahead n (next_index n i) d j
Ahead-next n i d j hi hj a h = ground arith

Ahead-zero : (n i j : ℕ) → i < n → j < n → Ahead n i 0 j → i ≡ j
Ahead-zero n i j hi hj a = ground arith

distance : (n i j : ℕ) → i < n → j < n → (d : ℕ) × (d < n) × Ahead n i d j
distance n i j hi hj = elim (Bool-cases (leb i j)) [
  | inl h ↦ (j - i, ground arith, ground arith)
  | inr h ↦ (j + n - i, ground arith, ground arith)
]

module _ {T : Type 0} where
  abbrev pub IsFree : MemoryPool T → ℕ → Type 0
  IsFree p i = (p.store i).is_free ≡ true

  -- Between two calls the next block is one of the pool's, and free.
  pub record IsReady (p : MemoryPool T) : Type 0 where
    pub in_range : p.next_free_index < p.size
    pub free : IsFree p p.next_free_index

  -- Besides the next block there is another free one.
  pub record HasSpare (p : MemoryPool T) : Type 0 where
    pub is_ready : IsReady p
    pub spare : ℕ
    pub in_range : spare < p.size
    pub is_other : spare ≢ p.next_free_index
    pub is_free : IsFree p spare

  abbrev pub with_next : ℕ → MemoryPool T → MemoryPool T
  with_next k p = record p { next_free_index = k }

  -- The search stops at a free block and changes nothing else.
  abbrev pub Found : MemoryPool T → ℕ → Type 0
  Found p fuel =
      (k : ℕ) × (k < p.size) × IsFree p k × (update_next_free_index fuel p ≡ ok tt (with_next k p))

  search-Ahead :
      (d fuel : ℕ) (p : MemoryPool T) (j : ℕ)
      → d < fuel
      → d < p.size
      → p.next_free_index < p.size
      → j < p.size
      → IsFree p j
      → Ahead p.size p.next_free_index d j
      → Found p fuel
  unfolding update_next_free_index
  search-Ahead d zero p j hf hd hi hj free a = absurd (omega arith)
  search-Ahead zero (suc fuel) p j hf hd hi hj free a =
      let e : p.next_free_index ≡ j = Ahead-zero p.size p.next_free_index j hi hj a in
      let f : IsFree p p.next_free_index = rw e free in
      (p.next_free_index, hi, f, rw (f, update_next_free_index))
  search-Ahead (suc d) (suc fuel) p j hf hd hi hj free a =
      elim (Bool-cases ((p.store p.next_free_index).is_free)) [
        | inl f ↦ (p.next_free_index, hi, f, rw (f, update_next_free_index))
        | inr f ↦
            let next : MemoryPool T = with_next (next_index p.size p.next_free_index) p in
            let (k, hk, fk, e) =
              search-Ahead d fuel next j (omega arith) (omega arith) (ground arith) hj free
                (Ahead-next p.size p.next_free_index d j hi hj a (omega arith)) in
            (k, hk, fk, rw (f, update_next_free_index) e)
      ]

  -- The search ends when some block is free: once round the pool is enough.
  search_lem :
      (p : MemoryPool T) (j : ℕ)
      → p.next_free_index < p.size
      → j < p.size
      → IsFree p j
      → Found p (suc p.size)
  search_lem p j hi hj free =
      let (d, hd, a) = distance p.size p.next_free_index j hi hj in
      search-Ahead d (suc p.size) p j (omega arith) hd hi hj free a

  -- The pool after a block has been built, before the search.
  abbrev pub filled : T → MemoryPool T → MemoryPool T
  filled v p = record p {
    store = update p.store p.next_free_index (record { object = v; is_free = false });
  }

  -- In a ready pool with a second free block `j`, `Allocate` returns the next block. It holds the
  -- object and is taken, all other blocks are as they were, and the pool is ready again.
  pub allocate_lem :
      (v : T) (p : MemoryPool T) (j : ℕ)
      → IsReady p
      → j < p.size
      → j ≢ p.next_free_index
      → IsFree p j
      → (k : ℕ) × (allocate v p ≡ ok (some p.next_free_index) (with_next k (filled v p)))
        × IsReady (with_next k (filled v p))
        × (k ≢ p.next_free_index)
  unfolding allocate
  allocate_lem v p j r hj ne free =
      let (k, hk, fk, e) = search_lem (filled v p) j r.in_range hj (ground arith) in
      (k, rw (r.free, e), record { in_range = hk; free = fk }, ground arith)

  -- With no free block the search goes round for ever, whatever number of rounds it gets.
  pub search_full :
      (fuel : ℕ) (p : MemoryPool T)
      → p.next_free_index < p.size
      → ((i : ℕ) → i < p.size → (p.store i).is_free ≡ false)
      → update_next_free_index fuel p ≡ out_of_fuel
  unfolding update_next_free_index
  search_full zero p h full = refl
  search_full (suc fuel) p h full =
      rw (full p.next_free_index h, update_next_free_index)
        (search_full fuel (with_next (next_index p.size p.next_free_index) p) (ground arith) full)

  -- Where a ready pool has no free block but the next, `Allocate` never returns: whatever number of
  -- steps its search is given, it does not end.
  pub allocate_within-last :
      (fuel : ℕ) (v : T) (p : MemoryPool T)
      → IsReady p
      → ((i : ℕ) → i < p.size → i ≢ p.next_free_index → (p.store i).is_free ≡ false)
      → allocate_within fuel v p ≡ out_of_fuel
  allocate_within-last fuel v p r full =
      rw (r.free, search_full fuel (filled v p) r.in_range λ i h. ground (arith, full i h))

  -- The pool with the block `i` given back; its object stays.
  abbrev pub freed : ℕ → MemoryPool T → MemoryPool T
  freed i p = record p {
    store = update p.store i (record { object = (p.store i).object; is_free = true });
  }

  pub deallocate_lem :
      (i : ℕ) (p : MemoryPool T) → i < p.size → deallocate (some i) p ≡ ok tt (freed i p)
  unfolding deallocate
  deallocate_lem i p h = ground arith

  -- `Deallocate` gives back a block of the pool and leaves the pool ready; the object stays.
  pub deallocate-IsReady :
      (i : ℕ) (p : MemoryPool T)
      → IsReady p
      → i < p.size
      → (q : MemoryPool T) × (deallocate (some i) p ≡ ok tt q)
        × IsReady q
        × IsFree q i
        × ((j : ℕ) → (q.store j).object ≡ (p.store j).object)
  unfolding deallocate
  deallocate-IsReady i p r h = (
    record p { store = update p.store i (record { object = (p.store i).object; is_free = true }) },
    ground arith,
    record { in_range = r.in_range; free = ground (arith, r.free) },
    ground arith,
    λ j. ground arith,
  )
