-- ===== src/TaskTable/Alloc.antt =====
-- `task_table_alloc` hands out unused slots.
use punix.Base.{
  update_self, update_ne, ℕ, zero, suc, ◌+◌, ◌*◌, ◌%◌, ◌^◌, ◌<◌, ◌≡◌, refl, ◌≢◌, inr, Option, none,
  some, arith, sym, ap, ◌∙◌, dec_lt, ℕ_discrete,
}
use punix.Base.Int.{pos}
use punix.FreeRing.{FreeRing, take}
use punix.FreeRing.Queue.{IsRing, count, entry, take_lem}
use punix.Task.{pid_none}
use punix.TaskTable.{TaskTable, max_process_cnt, pid_bits, claim, alloc}
use punix.TaskTable.Inv.{InUse, IsTable, pos-ne-none, new_pid, next_generation, all-InUse}

module _ (t : TaskTable) (v : IsTable t) where
  -- Taking the front of a ring that is not empty.
  module _ (ring : FreeRing) (is : IsRing pid_bits ring) (fewer : suc (count ring) ≡ count t.ring)
      (shifted : (k : ℕ) → entry pid_bits ring k ≡ entry pid_bits t.ring (suc k)) where
    abbrev slot : ℕ
    slot = entry pid_bits t.ring 0

    abbrev pid : ℕ
    pid = t.generation slot * max_process_cnt + slot

    slot-lt : slot < max_process_cnt
    slot-lt = v.in_range 0 (omega arith)

    others : (s : ℕ) → s ≢ slot → (claim t slot ring).tasks s ≡ t.tasks s
    others s ne = update_ne t.tasks slot s _ ne

    mine : ((claim t slot ring).tasks slot).pid ≡ pos pid
    mine = rw update_self (new_pid (t.generation slot) slot (v.generation slot slot-lt) slot-lt).0

    -- No later entry of the ring is the slot taken.
    later-ne : (k : ℕ) → k < count ring → entry pid_bits ring k ≢ slot
    later-ne k h e =
        omega (arith, v.once (suc k) 0 (omega arith) (omega arith) (sym (shifted k) ∙ e))

    -- A free slot that is not the front stands one place earlier now.
    earlier :
        (s : ℕ)
        → s ≢ slot
        → (k : ℕ) → k < count t.ring
        → entry pid_bits t.ring k ≡ s
        → (k : ℕ) × (k < count ring) × (entry pid_bits ring k ≡ s)
    earlier s ne zero hk e = absurd (ne (sym e))
    earlier s ne (suc k) hk e = (k, omega arith, shifted k ∙ e)

    claim-listed :
        (s : ℕ)
        → s < max_process_cnt
        → ((claim t slot ring).tasks s).pid ≡ pid_none
        → (k : ℕ) × (k < count ring) × (entry pid_bits ring k ≡ s)
    claim-listed s h e = elim (ℕ_discrete s slot) [
      | yes same ↦ absurd (pos-ne-none pid (sym mine ∙ (rw same at e)))
      | no ne ↦
          let (k, hk, ek) = v.listed s h (sym (ap (λ x. x.pid) (others s ne)) ∙ e) in
          earlier s ne k hk ek
    ]

    claim-IsTable : IsTable (claim t slot ring)
    claim-IsTable = record {
      ring = is;
      in_range = λ k h. rw (shifted k) (v.in_range (suc k) (omega arith));
      is_free = λ k h.
          rw (others (entry pid_bits ring k) (later-ne k h), shifted k)
            (v.is_free (suc k) (omega arith));
      once = λ j k hj hk e. omega (
        arith,
        v.once (suc j) (suc k) (omega arith) (omega arith) (sym (shifted j) ∙ e ∙ shifted k),
      );
      listed = claim-listed;
      named = λ s h. elim (ℕ_discrete s slot) [
        | yes e ↦ inr (
            rw e (
              let (_, small, names) =
                new_pid (t.generation slot) slot (v.generation slot slot-lt) slot-lt in
              (pid, mine, small, names)))
        | no ne ↦ rw (others s ne) (v.named s h)
      ];
      generation = λ s h. elim (ℕ_discrete s slot) [
        | yes e ↦ rw (e, update_self) (next_generation _)
        | no ne ↦ rw (update_ne t.generation slot s _ ne) (v.generation s h)
      ];
    }

-- What `task_table_alloc` returns.
pub data Allocates (t : TaskTable) : Option (ℕ × TaskTable) → Type 0 where
  exhausted :
      {r : Option (ℕ × TaskTable)}
      → r ≡ none
      → ((s : ℕ) → s < max_process_cnt → InUse t s)
      → Allocates t r
  claims :
      {r : Option (ℕ × TaskTable)} (slot : ℕ) (t' : TaskTable) (p : ℕ)
      → r ≡ some (slot, t')
      → IsTable t'
      → slot < max_process_cnt
      → (t.tasks slot).pid ≡ pid_none
      → (t'.tasks slot) ≡ record (t.tasks slot) { pid = pos p }
      → p < 2 ^ 31
      → p % max_process_cnt ≡ slot
      → ((s : ℕ) → s ≢ slot → t'.tasks s ≡ t.tasks s)
      → Allocates t r

alloc-some :
    (t : TaskTable) (slot : ℕ) (ring : FreeRing)
    → take pid_bits t.ring ≡ some (slot, ring)
    → alloc t ≡ some (slot, claim t slot ring)
unfolding alloc
alloc-some t slot ring e = rw (e, alloc) refl

alloc-none : (t : TaskTable) → take pid_bits t.ring ≡ none → alloc t ≡ none
unfolding alloc
alloc-none t e = rw (e, alloc) refl

-- `task_table_alloc` fails exactly if every slot is in use. Otherwise it gives an unused slot a pid
-- that is an int, not negative, and leads back to the slot; it changes no other task and keeps the
-- invariant.
pub alloc-Allocates : (t : TaskTable) → IsTable t → Allocates t (alloc t)
alloc-Allocates t v = elim (dec_lt 0 (count t.ring)) [
  | yes h ↦
      let (ring, e, is, fewer, shifted) =
        (take_lem pid_bits (2 ^ 26) refl (omega arith) t.ring v.ring).1 h in
      let slot = entry pid_bits t.ring 0 in
      let (number, small, names) =
        new_pid (t.generation slot) slot (v.generation slot (v.in_range 0 h)) (v.in_range 0 h) in
      claims {r = alloc t} slot (claim t slot ring) (t.generation slot * max_process_cnt + slot)
        (alloc-some t slot ring e) (claim-IsTable t v ring is fewer shifted) (v.in_range 0 h)
        (v.is_free 0 h)
        (update_self t.tasks slot _ ∙ ap (λ p. record (t.tasks slot) { pid = p }) number) small
        names (others t v ring is fewer shifted)
  | no h ↦
      exhausted {r = alloc t}
        (alloc-none t
          ((take_lem pid_bits (2 ^ 26) refl (omega arith) t.ring v.ring).0 (omega arith)))
        (all-InUse t v (omega arith))
]

-- In particular the table that it returns keeps the invariant.
pub alloc-IsTable : (t t' : TaskTable) (s : ℕ) → IsTable t → alloc t ≡ some (s, t') → IsTable t'
alloc-IsTable t t' s v e = go (alloc-Allocates t v)
  where
    go : Allocates t (alloc t) → IsTable t'
    go (exhausted q all) = absurd (cc)
    go (claims slot u p q w lt unused mine small names others) =
        let same : u ≡ t' = cc in rw (← same) w
