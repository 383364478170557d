-- ===== src/Tests/Common.antt =====
-- The theorems on common/MemoryPool.h and common/SafeQueue.h, at small pools and queues.
use low_latency.Prelude.{
  ℕ, ◌≡◌, ◌≢◌, refl, true, false, some, [], ◌∷◌, ◌++◌, ◌==◌, if◌then◌else◌, arith, ok, out_of_fuel,
}
use low_latency.Common.MemoryPool.{MemoryPool, allocate_within, allocate}
use low_latency.Common.MemoryPool.Allocation.{
  IsReady, filled, with_next, allocate_lem, allocate_within-last,
}
use low_latency.Common.SafeQueue.{SafeQueue, push, get_next_read, update_read_index}
use low_latency.Common.SafeQueue.Fifo.{contents, IsValid, advanced, push_lem, read_cons}

-- A ring of four with 5 and 6 in its last slot and its first.
abbrev wrapped : SafeQueue ℕ
wrapped = record {
  store = λ i. if i == 3 then 5 else 6;
  size = 4;
  next_write_index = 1;
  next_read_index = 3;
  num_elements = 2;
}

wrapped-IsValid : IsValid wrapped
wrapped-IsValid = ground arith

push_lem_example :
    IsValid (push 7 wrapped) × (contents (push 7 wrapped) ≡ contents wrapped ++ (7 ∷ []))
push_lem_example = push_lem 7 wrapped wrapped-IsValid (omega arith)

read_cons_example :
    (get_next_read wrapped ≡ some 5)
    × (update_read_index wrapped ≡ ok tt (advanced wrapped))
    × IsValid (advanced wrapped)
    × (contents (advanced wrapped) ≡ 6 ∷ [])
read_cons_example = read_cons wrapped wrapped-IsValid refl

-- A ring of four that holds nothing, and one that is full.
abbrev nothing_waits : SafeQueue ℕ
nothing_waits = record {
  store = λ _. 0;
  size = 4;
  next_write_index = 2;
  next_read_index = 2;
  num_elements = 0;
}

abbrev three_wait : SafeQueue ℕ
three_wait = record {
  store = λ i. i;
  size = 4;
  next_write_index = 3;
  next_read_index = 0;
  num_elements = 3;
}

-- A pool of three whose block 1 is next; and one with no other free block.
abbrev two_free : MemoryPool ℕ
two_free = record {
  store = λ i. record { object = 0; is_free = if i == 0 then false else true };
  size = 3;
  next_free_index = 1;
}

two_free-IsReady : IsReady two_free
two_free-IsReady = record { in_range = omega arith; free = refl }

allocate_lem_example :
    (k : ℕ) × (allocate 8 two_free ≡ ok (some 1) (with_next k (filled 8 two_free)))
    × IsReady (with_next k (filled 8 two_free))
    × (k ≢ 1)
allocate_lem_example = allocate_lem 8 two_free 2 two_free-IsReady (omega arith) (omega arith) refl

abbrev one_free : MemoryPool ℕ
one_free = record {
  store = λ i. record { object = 0; is_free = if i == 1 then true else false };
  size = 3;
  next_free_index = 1;
}

allocate_within-last_example : allocate_within 500 8 one_free ≡ out_of_fuel
allocate_within-last_example =
    allocate_within-last 500 8 one_free (record { in_range = omega arith; free = refl })
      λ i h ne. ground (arith, ne)
