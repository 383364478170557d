-- ===== src/Common/MemoryPool.antt =====
-- common/MemoryPool.h: a fixed number of blocks, each with an object and a mark, and the index of
-- the block that is handed out next. A pointer is the index of its block. The checks of a debug
-- build (`DCHECK_FATAL`) are not part of the model.
pub mod Allocation
use low_latency.Prelude.{
  ℕ, zero, suc, ◌+◌, Bool, true, false, none, some, ◌==◌, if◌then◌else◌, ltb, update, Ptr, ok,
  fault, out_of_fuel, Cmd, pure, ◌>>◌, out_of_range,
}

pub record ObjectBlock (T : Type 0) : Type 0 where
  pub object : T
  pub is_free : Bool

pub record MemoryPool (T : Type 0) : Type 0 where
  pub store : ℕ → ObjectBlock T
  pub size : ℕ
  pub next_free_index : ℕ

abbrev pub next_index : ℕ → ℕ → ℕ
next_index n i = if i + 1 == n then 0 else i + 1

module _ {T : Type 0} where
  -- `MemoryPool(numElems)`; `blank` is `T()`.
  unfoldable pub make : ℕ → T → MemoryPool T
  make n blank = record {
    store = λ _. record { object = blank; is_free = true };
    size = n;
    next_free_index = 0;
  }

  -- The `while` of `UpdateNextFreeIndex`, on fuel; going once round the pool only prints a warning.
  unfoldable pub update_next_free_index : ℕ → Cmd (MemoryPool T) (Unit {0})
  update_next_free_index zero p = out_of_fuel
  update_next_free_index (suc fuel) p = elim ((p.store p.next_free_index).is_free) [
    | true ↦ ok tt p
    | false ↦
        update_next_free_index fuel
          (record p { next_free_index = next_index p.size p.next_free_index })
  ]

  -- `Allocate(args...)`, with fuel for the search: the object is built in the block, which may be
  -- the only free one.
  abbrev pub allocate_within : ℕ → T → Cmd (MemoryPool T) Ptr
  allocate_within fuel value p =
      let i = p.next_free_index in
      let block : ObjectBlock T = record { object = value; is_free = false } in
      if (p.store i).is_free
      then (update_next_free_index fuel >> pure (some i))
          (record p { store = update p.store i block })
      else ok none p

  -- `Allocate` as the other parts call it: going round the whole pool takes `size` steps, and one
  -- more sees the last of its blocks.
  unfoldable pub allocate : T → Cmd (MemoryPool T) Ptr
  allocate value p = allocate_within (suc p.size) value p

  -- `Deallocate(elem)`: the object stays in its block.
  unfoldable pub deallocate : Ptr → Cmd (MemoryPool T) (Unit {0})
  deallocate none p = fault out_of_range
  deallocate (some i) p =
      if ltb i p.size
      then ok tt (record p {
        store = update p.store i (record { object = (p.store i).object; is_free = true });
      })
      else fault out_of_range
