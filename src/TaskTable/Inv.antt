-- ===== src/TaskTable/Inv.antt =====
-- The invariant of the task table, which every operation keeps.
use punix.Base.{
  ap, ℕ, ◌+◌, ◌*◌, ◌%◌, ◌^◌, ◌<◌, ◌≡◌, refl, ◌≢◌, ◌⊎◌, inl, inr, arith, bit_and, and_mask, lt→ltb,
}
use punix.Base.Int.{ℤ, pos, negsuc}
use punix.FreeRing.{w32}
use punix.FreeRing.Queue.{IsRing, count, entry}
use punix.Task.{pid_none}
use punix.TaskTable.{
  TaskTable, max_process_cnt, pid_bits, max_generation, to_int, find_by_pid, check_slot, pid_mask,
}

-- Slot `s` is in use under a pid that names it.
abbrev pub InUse : TaskTable → ℕ → Type 0
InUse t s = (p : ℕ) × ((t.tasks s).pid ≡ pos p) × (p < 2 ^ 31) × (p % max_process_cnt ≡ s)

-- The ring holds exactly the slots without a pid, each once.
pub record IsTable (t : TaskTable) : Type 0 where
  pub ring : IsRing pid_bits t.ring
  pub in_range : (k : ℕ) → k < count t.ring → entry pid_bits t.ring k < max_process_cnt
  pub is_free : (k : ℕ) → k < count t.ring → (t.tasks (entry pid_bits t.ring k)).pid ≡ pid_none
  pub once :
      (j k : ℕ)
      → j < count t.ring
      → k < count t.ring
      → entry pid_bits t.ring j ≡ entry pid_bits t.ring k
      → j ≡ k
  pub listed :
      (s : ℕ)
      → s < max_process_cnt
      → (t.tasks s).pid ≡ pid_none
      → (k : ℕ) × (k < count t.ring) × (entry pid_bits t.ring k ≡ s)
  pub named : (s : ℕ) → s < max_process_cnt → ((t.tasks s).pid ≡ pid_none) ⊎ InUse t s
  pub generation : (s : ℕ) → s < max_process_cnt → t.generation s < 2 ^ 25

pub pos-ne-none : (p : ℕ) → pos p ≢ pid_none
pos-ne-none p e = cc

to_int-small : (x : ℕ) → x < 2 ^ 31 → to_int x ≡ pos x
to_int-small x h = rw (lt→ltb x (2 ^ 31) h) refl

-- The pid that a slot gets in generation `g`.
pub new_pid :
    (g s : ℕ)
    → g < 2 ^ 25
    → s < max_process_cnt
    → (to_int ((g * max_process_cnt + s) % w32) ≡ pos (g * max_process_cnt + s))
      × (g * max_process_cnt + s < 2 ^ 31)
      × ((g * max_process_cnt + s) % max_process_cnt ≡ s)
new_pid g s hg hs = (
  let e : (g * max_process_cnt + s) % w32 ≡ g * max_process_cnt + s = omega arith in
      rw e (to_int-small _ (omega arith)),
  omega arith,
  omega arith,
)

pub next_generation : (g : ℕ) → bit_and ((g + 1) % w32) max_generation < 2 ^ 25
next_generation g = omega (arith, and_mask 25 ((g + 1) % w32))

-- No slot without a pid is left out: an empty ring means that every slot is in use.
pub all-InUse :
    (t : TaskTable) → IsTable t → count t.ring ≡ 0 → (s : ℕ) → s < max_process_cnt → InUse t s
all-InUse t v e s h = elim (v.named s h) [
  | inl unused ↦ let (k, hk, _) = v.listed s h unused in absurd (omega arith)
  | inr used ↦ used
]

-- The search for a pid depends on the pids alone.
pub find_by_pid-cong :
    (t t' : TaskTable) (p : ℤ)
    → ((i : ℕ) → (t'.tasks i).pid ≡ (t.tasks i).pid)
    → find_by_pid t' p ≡ find_by_pid t p
unfolding find_by_pid
find_by_pid-cong t t' (negsuc n) same = refl
find_by_pid-cong t t' (pos n) same =
    ap (λ q. check_slot n q (bit_and n pid_mask)) (same (bit_and n pid_mask))
