-- ===== src/TaskTable/Free.antt =====
-- `task_table_free` and `task_table_find_task_by_pid`.
use punix.Base.{
  update, update_self, update_ne, ℕ, suc, ◌%◌, ◌^◌, ◌<◌, ◌≡◌, refl, ◌≢◌, ◌⊎◌, inl, inr, none, some,
  arith, bit_and, and_mask, sym, ap, ◌∙◌, dec_lt, eq→==, ℕ_discrete, ◌↔◌,
}
use punix.Base.Int.{ℤ, pos, negsuc}
use punix.Base.Pigeonhole.{misses_none}
use punix.FreeRing.{FreeRing, give}
use punix.FreeRing.Queue.{IsRing, count, entry, give_lem}
use punix.Task.{pid_none}
use punix.TaskTable.{
  TaskTable, max_process_cnt, pid_bits, pid_mask, find_by_pid, check_slot, release, free,
}
use punix.TaskTable.Inv.{InUse, IsTable, pos-ne-none}

mask_slot : (p : ℕ) → bit_and p pid_mask ≡ p % max_process_cnt
mask_slot p = and_mask 6 p

module _ (t : TaskTable) (v : IsTable t) (s p : ℕ) (hs : s < max_process_cnt)
    (owns : (t.tasks s).pid ≡ pos p) (names : p % max_process_cnt ≡ s) where
  entry-ne : (k : ℕ) → k < count t.ring → entry pid_bits t.ring k ≢ s
  entry-ne k h e = pos-ne-none p (sym owns ∙ ap (λ x. (t.tasks x).pid) (sym e) ∙ v.is_free k h)

  -- Were the ring full, its entries and the slot would be too many different slots.
  room : count t.ring < max_process_cnt
  room = elim (dec_lt (count t.ring) max_process_cnt) [
    | yes h ↦ h
    | no h ↦
        let full : count t.ring ≡ max_process_cnt = omega (arith, v.ring.fits) in
        absurd (
          misses_none max_process_cnt (entry pid_bits t.ring)
            (λ k q. v.in_range k (omega arith), λ j k q r. v.once j k (omega arith) (omega arith)) s
            hs (λ k q. entry-ne k (omega arith)))
  ]

  module _ (ring : FreeRing) (is : IsRing pid_bits ring) (more : count ring ≡ suc (count t.ring))
      (last : entry pid_bits ring (count t.ring) ≡ s)
      (kept : (k : ℕ) → k < count t.ring → entry pid_bits ring k ≡ entry pid_bits t.ring k) where
    abbrev freed : TaskTable
    freed = record t { ring = ring; tasks = update t.tasks s (release (t.tasks s)) }

    others : (i : ℕ) → i ≢ s → freed.tasks i ≡ t.tasks i
    others i ne = update_ne t.tasks s i _ ne

    mine : (freed.tasks s).pid ≡ pid_none
    mine = ap (λ x. x.pid) (update_self t.tasks s (release (t.tasks s)))

    -- A place of the longer queue is one of the old ones or the new last one.
    place : (k : ℕ) → k < count ring → (k < count t.ring) ⊎ (k ≡ count t.ring)
    place k h = omega arith

    old_once :
        (j k : ℕ)
        → j < count t.ring
        → k < count ring
        → entry pid_bits ring j ≡ entry pid_bits ring k
        → j ≡ k
    old_once j k hj hk e = elim (place k hk) [
      | inl q ↦ v.once j k hj q (sym (kept j hj) ∙ e ∙ kept k q)
      | inr q ↦ absurd (entry-ne j hj (sym (kept j hj) ∙ e ∙ rw q last))
    ]

    freed-IsTable : IsTable freed
    freed-IsTable = record {
      ring = is;
      in_range = λ k h. elim (place k h) [
        | inl q ↦ rw (kept k q) (v.in_range k q)
        | inr q ↦ rw (q, last) hs
      ];
      is_free = λ k h. elim (place k h) [
        | inl q ↦ rw (kept k q, others _ (entry-ne k q)) (v.is_free k q)
        | inr q ↦ rw (q, last) mine
      ];
      once = λ j k hj hk e. elim (place j hj) [
        | inl q ↦ old_once j k q hk e
        | inr q ↦ elim (place k hk) [ inl r ↦ sym (old_once k j r hj (sym e)) | inr r ↦ q ∙ sym r ]
      ];
      listed = λ i h e. elim (ℕ_discrete i s) [
        | yes same ↦ (count t.ring, omega arith, last ∙ sym same)
        | no ne ↦
            let (k, q, r) = v.listed i h (sym (ap (λ x. x.pid) (others i ne)) ∙ e) in
            (k, omega arith, kept k q ∙ r)
      ];
      named = λ i h. elim (ℕ_discrete i s) [
        | yes same ↦ inl (rw same mine)
        | no ne ↦ rw (others i ne) (v.named i h)
      ];
      generation = v.generation;
    }

free-some :
    (t : TaskTable) (s p : ℕ) (ring : FreeRing)
    → (t.tasks s).pid ≡ pos p
    → bit_and p pid_mask ≡ s
    → give pid_bits t.ring s ≡ some ring
    → free t s ≡ some (record t { ring = ring; tasks = update t.tasks s (release (t.tasks s)) })
unfolding free
free-some t s p ring owns names e = rw (owns, free) (rw (names, eq→== s s refl, e) refl)

-- Freeing a task in use never panics. It leaves a table that keeps the invariant, in which the task
-- has no pid, is pooled, and is cut off from its relatives; every other task is as before.
pub free_lem :
    (t : TaskTable) (s : ℕ)
    → IsTable t
    → s < max_process_cnt
    → InUse t s
    → (t' : TaskTable) × (free t s ≡ some t')
      × IsTable t'
      × (t'.tasks s ≡ release (t.tasks s))
      × ((i : ℕ) → i ≢ s → t'.tasks i ≡ t.tasks i)
free_lem t s v hs (p, owns, small, names) =
    let (ring, e, is, more, last, kept) =
      (give_lem pid_bits (2 ^ 26) refl (omega arith) t.ring v.ring s).1
        (room t v s p hs owns names) in
    (
      freed t v s p hs owns names ring is more last kept,
      free-some t s p ring owns (mask_slot p ∙ names) e,
      freed-IsTable t v s p hs owns names ring is more last kept,
      update_self t.tasks s (release (t.tasks s)),
      others t v s p hs owns names ring is more last kept,
    )

check_slot-some :
    (n : ℕ) (z : ℤ) (slot s : ℕ) → check_slot n z slot ≡ some s → (z ≡ pos n) × (slot ≡ s)
unfolding check_slot
check_slot-some n (negsuc p) slot s e = absurd (cc)
check_slot-some n (pos p) slot s e = ground arith

found :
    (t : TaskTable) (p s : ℕ)
    → find_by_pid t (pos p) ≡ some s
    → (s < max_process_cnt) × ((t.tasks s).pid ≡ pos p)
unfolding find_by_pid
found t p s e =
    let (owns, same) =
      check_slot-some p (t.tasks (bit_and p pid_mask)).pid (bit_and p pid_mask) s e in
    (omega (arith, same, mask_slot p), ap (λ x. (t.tasks x).pid) (sym same) ∙ owns)

finds :
    (t : TaskTable) (p s : ℕ)
    → IsTable t
    → s < max_process_cnt
    → (t.tasks s).pid ≡ pos p
    → find_by_pid t (pos p) ≡ some s
unfolding find_by_pid check_slot
finds t p s v hs owns = elim (v.named s hs) [
  | inl unused ↦ absurd (pos-ne-none p (sym owns ∙ unused))
  | inr (q, owns', small, names) ↦
      let same : q ≡ p = cc in
      let slot : bit_and p pid_mask ≡ s = mask_slot p ∙ rw same at names in
      rw (slot, owns) (rw (eq→== p p refl) refl)
]

-- What `task_table_find_task_by_pid` answers: the slot that has the pid, if there is one.
pub find_by_pid_iff :
    (t : TaskTable) (p s : ℕ)
    → IsTable t
    → ((find_by_pid t (pos p) ≡ some s) ↔ ((s < max_process_cnt) × ((t.tasks s).pid ≡ pos p)))
      × ((n : ℕ) → find_by_pid t (negsuc n) ≡ none)
find_by_pid_iff t p s v =
    ((found t p s, λ q. finds t p s v q.0 q.1), λ n. unfold find_by_pid in refl)
