-- ===== src/FreeRing.antt =====
-- The ring of free indices that kernel/core/task_table.c and fs/vfs.c both keep: `free_head` and
-- `free_tail` run freely as uint32_t and are masked at each access. Both files write the code out;
-- the model shares it, over the number `b` of mask bits.
pub mod Queue
use punix.Base.{update, ℕ, ◌+◌, ◌-◌, ◌%◌, ◌^◌, bit_and, Option, none, some, ◌==◌, if◌then◌else◌}

abbrev pub w32 : ℕ
w32 = 2 ^ 32

pub record FreeRing : Type 0 where
  pub slots : ℕ → ℕ
  pub head : ℕ
  pub tail : ℕ

-- The ring that the initialisers build, which holds every index once.
pub full : ℕ → FreeRing
full b = record { slots = λ i. i; head = 0; tail = 2 ^ b }

-- `none` if no index is free.
unfoldable pub take : ℕ → FreeRing → Option (ℕ × FreeRing)
take b r =
    if r.head == r.tail
    then none
    else some (r.slots (bit_and r.head (2 ^ b - 1)), record r { head = (r.head + 1) % w32 })

-- `none` is the panic about too many frees.
unfoldable pub give : ℕ → FreeRing → ℕ → Option FreeRing
give b r i =
    if (r.tail + w32 - r.head) % w32 == 2 ^ b
    then none
    else some (record r {
      slots = update r.slots (bit_and r.tail (2 ^ b - 1)) i;
      tail = (r.tail + 1) % w32;
    })
