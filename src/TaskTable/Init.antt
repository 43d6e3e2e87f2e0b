-- ===== src/TaskTable/Init.antt =====
-- `task_table_init` makes every slot free.
use punix.Base.{
  update, update_self, update_ne, ℕ, zero, suc, ◌+◌, ◌%◌, ◌^◌, ◌<◌, ◌≡◌, refl, inl, arith, ap, ◌∙◌,
  ℕ_discrete,
}
use punix.FreeRing.Queue.{count, entry}
use punix.Task.{pid_none}
use punix.TaskTable.{TaskTable, max_process_cnt, init_slot, init_loop, init, pid_bits}
use punix.TaskTable.Inv.{IsTable}

-- The slots below `i` are set up.
record IsReady (t : TaskTable) (i : ℕ) : Type 0 where
  head : t.ring.head ≡ 0
  tail : t.ring.tail ≡ max_process_cnt
  numbered : (j : ℕ) → j < i → t.ring.slots j ≡ j
  no_pid : (j : ℕ) → j < i → (t.tasks j).pid ≡ pid_none
  first : (j : ℕ) → j < i → t.generation j ≡ 0

-- A statement about the elements below `i` that an update at `i` extends by one.
module _ {ℓ κ} {A : Type ℓ} (P : ℕ → A → Type κ) (f : ℕ → A) (i : ℕ) (v : A) where
  extend_update : ((j : ℕ) → j < i → P j (f j)) → P i v → (j : ℕ) → j < i + 1 → P j (update f i v j)
  extend_update old new j h = elim (ℕ_discrete j i) [
    | yes e ↦ rw (e, update_self) new
    | no ne ↦ rw (update_ne f i j v ne) (old j (omega arith))
  ]

init_slot-IsReady : (t : TaskTable) (i : ℕ) → IsReady t i → IsReady (init_slot t i) (i + 1)
unfolding init_slot
init_slot-IsReady t i v = record {
  head = v.head;
  tail = v.tail;
  numbered = extend_update (λ j x. x ≡ j) t.ring.slots i i v.numbered refl;
  no_pid = extend_update (λ j x. x.pid ≡ pid_none) t.tasks i _ v.no_pid refl;
  first = extend_update (λ j x. x ≡ 0) t.generation i 0 v.first refl;
}

init_loop-IsReady :
    (left i last : ℕ) (t : TaskTable)
    → i + left ≡ last
    → IsReady t i
    → IsReady (init_loop left i t) last
unfolding init_loop
init_loop-IsReady zero i last t e v = let same : i ≡ last = omega arith in rw (← same) v
init_loop-IsReady (suc left) i last t e v =
    init_loop-IsReady left (i + 1) last (init_slot t i) (omega arith) (init_slot-IsReady t i v)

init-IsReady : (t : TaskTable) → IsReady (init t) max_process_cnt
unfolding init
init-IsReady t = init_loop-IsReady max_process_cnt 0 max_process_cnt _ (omega arith) (record {
  head = refl;
  tail = refl;
  numbered = λ j h. absurd (omega arith);
  no_pid = λ j h. absurd (omega arith);
  first = λ j h. absurd (omega arith);
})

module _ (t : TaskTable) (v : IsReady t max_process_cnt) where
  all_free : count t.ring ≡ max_process_cnt
  all_free = omega (arith, v.head, v.tail)

  in_order : (k : ℕ) → k < max_process_cnt → entry pid_bits t.ring k ≡ k
  in_order k h =
      let place : (t.ring.head + k) % 2 ^ pid_bits ≡ k = omega (arith, v.head) in
      ap t.ring.slots place ∙ v.numbered k h

  IsReady-IsTable : IsTable t
  IsReady-IsTable = record {
    ring = omega (arith, v.head, v.tail);
    in_range = λ k h. rw (in_order k (omega (arith, all_free))) (omega (arith, all_free));
    is_free =
        λ k h. rw (in_order k (omega (arith, all_free))) (v.no_pid k (omega (arith, all_free)));
    once = λ j k hj hk e.
        omega
          (arith, e, in_order j (omega (arith, all_free)), in_order k (omega (arith, all_free)));
    listed = λ s h e. (s, omega (arith, all_free), in_order s h);
    named = λ s h. inl (v.no_pid s h);
    generation = λ s h. omega (arith, v.first s h);
  }

-- Whatever the memory held, after `task_table_init` the invariant holds and all slots are free.
pub init-IsTable : (t : TaskTable) → IsTable (init t) × (count (init t).ring ≡ max_process_cnt)
init-IsTable t = (IsReady-IsTable (init t) (init-IsReady t), all_free (init t) (init-IsReady t))
