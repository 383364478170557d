-- ===== src/Common/SafeQueue.antt =====
-- common/SafeQueue.h: a ring with a write index, a read index and a count, with no test for a full
-- ring. Each method is one step here.
pub mod Fifo
use low_latency.Prelude.{
  ℕ, ◌+◌, ◌-◌, ◌%◌, Option, none, some, ◌==◌, if◌then◌else◌, not, update, Cmd, check_fatal, modify,
  ◌>>◌,
}
use low_latency.Common.Types.{u64}

pub record SafeQueue (T : Type 0) : Type 0 where
  pub store : ℕ → T
  pub size : ℕ
  pub next_write_index : ℕ
  pub next_read_index : ℕ
  pub num_elements : ℕ

module _ {T : Type 0} where
  -- `SafeQueue(numElements)`; `blank` is `T()`.
  unfoldable pub make : ℕ → T → SafeQueue T
  make n blank = record {
    store = λ _. blank;
    size = n;
    next_write_index = 0;
    next_read_index = 0;
    num_elements = 0;
  }

  -- `*GetNextWriteTo() = value`
  unfoldable pub write_next : T → SafeQueue T → SafeQueue T
  write_next value q = record q { store = update q.store q.next_write_index value }

  unfoldable pub update_write_index : SafeQueue T → SafeQueue T
  update_write_index q = record q {
    next_write_index = u64 (q.next_write_index + 1) % q.size;
    num_elements = u64 (q.num_elements + 1);
  }

  -- The three lines by which every producer enqueues.
  unfoldable pub push : T → SafeQueue T → SafeQueue T
  unfolding write_next update_write_index
  push value q = update_write_index (write_next value q)

  -- `GetNextRead`: `none` is `nullptr`, else what the pointer points at.
  unfoldable pub get_next_read : SafeQueue T → Option T
  get_next_read q =
      if q.next_read_index == q.next_write_index then none else some (q.store q.next_read_index)

  unfoldable pub update_read_index : Cmd (SafeQueue T) (Unit {0})
  update_read_index q =
      (modify (λ r. record r { next_read_index = u64 (r.next_read_index + 1) % r.size })
          >> check_fatal (not (q.num_elements == 0))
          >> modify (λ r. record r { num_elements = r.num_elements - 1 }))
        q

  unfoldable pub get_size : SafeQueue T → ℕ
  get_size q = q.num_elements
