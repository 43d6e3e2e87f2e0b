-- ===== src/Wait/Wakeup.antt =====
-- `wakeup` puts the sleeping tasks of a wait queue on the run queue.
use punix.Base.{
  ℕ, zero, suc, ◌+◌, ◌<◌, ◌≡◌, refl, sym, ap, ◌∙◌, ◌≢◌, arith, append-nil, append_assoc, length,
  length-append, Option, none, some, List, [], ◌∷◌, ◌++◌, Bool, true, false, if◌then◌else◌,
  update_self, update_ne,
}
use punix.FreeRing.{w32}
use punix.Task.{Task}
use punix.RunQueue.Linked.{NotIn, Distinct}
use punix.Sched.{Sched, enqueue, is_sleeping}
use punix.Sched.Inv.{IsSched, enqueue-IsSched}
use punix.Wait.{Entry, WaitQueue, Waits, set_queue, empty, detach, wake_task, wake_loop, wakeup}
use punix.Wait.Linked.{Entries, Links, IsWait, IsDetached, Links-update}
use punix.Wait.Unlink.{update-field}

abbrev pub add_sleeper : (ℕ → Bool) → Option ℕ → List ℕ → List ℕ
add_sleeper sleeps none ts = ts
add_sleeper sleeps (some t) ts = if sleeps t then t ∷ ts else ts

-- The tasks of the entries that sleep, in the order of the entries.
abbrev pub sleepers : (ℕ → Option ℕ) → (ℕ → Bool) → List ℕ → List ℕ
sleepers task_of sleeps [] = []
sleepers task_of sleeps (e ∷ es) = add_sleeper sleeps (task_of e) (sleepers task_of sleeps es)

abbrev pub task_of : Waits → ℕ → Option ℕ
task_of w e = (w.entries e).task

abbrev pub sleeps_in : Sched → ℕ → Bool
sleeps_in s t = is_sleeping (s.table.tasks t).state

-- The tasks `ts` can go behind those of `l` on the run queue.
pub record CanQueue (s : Sched) (sw : ℕ) (l ts : List ℕ) : Type 0 where
  pub distinct : Distinct (l ++ ts)
  pub swapper_out : NotIn sw ts
  pub current_out : (c : ℕ) → s.current ≡ some c → NotIn c ts
  pub room : length (l ++ ts) + 1 < w32

abbrev pub AllDetached : Entries → List ℕ → Type 0
AllDetached es [] = Unit
AllDetached es (x ∷ xs) = IsDetached (es x) × AllDetached es xs

Distinct-middle : (l : List ℕ) (t : ℕ) (ts : List ℕ) → Distinct (l ++ (t ∷ ts)) → NotIn t l
Distinct-middle [] t ts d = tt
Distinct-middle (x ∷ l) t ts d = ((λ e. out x t l ts d.0 (sym e)), Distinct-middle l t ts d.1)
  where
    out : (x t : ℕ) (l ts : List ℕ) → NotIn x (l ++ (t ∷ ts)) → x ≢ t
    out x t [] ts n = n.0
    out x t (y ∷ l) ts n = out x t l ts n.1

-- The first of the tasks is queued, and the others can follow.
queue-first :
    (s : Sched) (sw t : ℕ) (l ts : List ℕ)
    → IsSched s sw l
    → CanQueue s sw l (t ∷ ts)
    → (s' : Sched) × (enqueue s t ≡ some s')
      × IsSched s' sw (l ++ (t ∷ []))
      × CanQueue s' sw (l ++ (t ∷ [])) ts
      × ((i : ℕ) → (s'.table.tasks i).state ≡ (s.table.tasks i).state)
queue-first s sw t l ts v can =
    let (s', e, v', same, current) =
      enqueue-IsSched s sw t l v (Distinct-middle l t ts can.distinct) can.swapper_out.0
        (λ ec. (can.current_out t ec).0 refl) (omega (arith, can.room, length-append l (t ∷ ts))) in
    let joined = append_assoc l (t ∷ []) ts in
    (
      s',
      e,
      v',
      record {
        distinct = rw joined can.distinct;
        swapper_out = can.swapper_out.1;
        current_out = λ c ec. (can.current_out c (sym current ∙ ec)).1;
        room = rw joined can.room;
      },
      λ i. ap (λ (x : Task). x.state) (same i),
    )

wake_task_lem :
    (s : Sched) (sw : ℕ) (o : Option ℕ) (sleeps : ℕ → Bool) (l ts : List ℕ)
    → ((t : ℕ) → sleeps_in s t ≡ sleeps t)
    → IsSched s sw l
    → CanQueue s sw l (add_sleeper sleeps o ts)
    → (s' : Sched) × (l' : List ℕ) × (wake_task s o ≡ some s')
      × IsSched s' sw l'
      × CanQueue s' sw l' ts
      × (l' ++ ts ≡ l ++ add_sleeper sleeps o ts)
      × ((i : ℕ) → (s'.table.tasks i).state ≡ (s.table.tasks i).state)
unfolding wake_task
wake_task_lem s sw none sleeps l ts same v can = (s, l, refl, v, can, refl, λ i. refl)
wake_task_lem s sw (some t) sleeps l ts same v can = by_state (sleeps t) refl can
  where
    by_state :
        (b : Bool)
        → sleeps t ≡ b
        → CanQueue s sw l (if b then t ∷ ts else ts)
        → (s' : Sched) × (l' : List ℕ) × (wake_task s (some t) ≡ some s')
          × IsSched s' sw l'
          × CanQueue s' sw l' ts
          × (l' ++ ts ≡ l ++ (if b then t ∷ ts else ts))
          × ((i : ℕ) → (s'.table.tasks i).state ≡ (s.table.tasks i).state)
    by_state false e can = (s, l, (rw (same t ∙ e, wake_task) refl), v, can, refl, λ i. refl)
    by_state true e can =
        let (s', eq, v', can', states) = queue-first s sw t l ts v can in
        (
          s',
          l ++ (t ∷ []),
          rw (same t ∙ e, wake_task) eq,
          v',
          can',
          append_assoc l (t ∷ []) ts,
          states,
        )

wake_loop-step :
    (fuel : ℕ) (w : Waits) (s s' : Sched) (e : ℕ)
    → wake_task s (w.entries e).task ≡ some s'
    → wake_loop (suc fuel) w s (some e) ≡ wake_loop fuel (detach w e) s' (w.entries e).next
unfolding wake_loop
wake_loop-step fuel w s s' e h = rw h refl

wake_loop_lem :
    (fuel : ℕ) (w : Waits) (s : Sched) (q sw : ℕ) (prev cur : Option ℕ) (es l : List ℕ)
    (tasks : ℕ → Option ℕ) (sleeps : ℕ → Bool)
    → length es < fuel
    → Links w.entries q prev cur es
    → Distinct es
    → ((e : ℕ) → task_of w e ≡ tasks e)
    → ((t : ℕ) → sleeps_in s t ≡ sleeps t)
    → IsSched s sw l
    → CanQueue s sw l (sleepers tasks sleeps es)
    → (w' : Waits) × (s' : Sched) × (wake_loop fuel w s cur ≡ some (w', s'))
      × (w'.queues ≡ w.queues)
      × AllDetached w'.entries es
      × ((x : ℕ) → NotIn x es → w'.entries x ≡ w.entries x)
      × IsSched s' sw (l ++ sleepers tasks sleeps es)
wake_loop_lem zero w s q sw prev cur es l tasks sleeps enough c d st ss v can =
    absurd (omega (arith, enough))
wake_loop_lem (suc fuel) w s q sw prev cur [] l tasks sleeps enough c d st ss v can =
    (w, s, rw c (unfold wake_loop in refl), refl, tt, λ x n. refl, rw (append-nil l) v)
wake_loop_lem (suc fuel) w s q sw prev cur (e ∷ es) l tasks sleeps enough c d st ss v can =
    let (s1, l1, e1, v1, can1, joined, states) =
      wake_task_lem s sw (tasks e) sleeps l (sleepers tasks sleeps es) ss v can in
    let (w', s', e2, queues, detached, others, v2) =
      wake_loop_lem fuel (detach w e) s1 q sw (some e) (w.entries e).next es l1 tasks sleeps
        (omega (arith, enough))
        (Links-update w.entries q e _ (some e) (w.entries e).next es d.0 c.3) d.1
        (λ x. update-field (λ (y : Entry). y.task) w.entries e x _ refl ∙ st x)
        (λ t. ap is_sleeping (states t) ∙ ss t) v1 can1 in
    let gone = others e d.0 ∙ update_self w.entries e _ in
    (
      w',
      s',
      rw c.0 (wake_loop-step fuel w s s1 e (rw (st e) e1) ∙ e2),
      queues,
      (
        (
          ap (λ (y : Entry). y.queue) gone,
          ap (λ (y : Entry). y.prev) gone,
          ap (λ (y : Entry). y.next) gone,
        ),
        detached,
      ),
      λ x n. others x n.1 ∙ update_ne w.entries e x _ n.0,
      rw (← joined) v2,
    )

-- `wakeup` ends when it is given more fuel than the queue has entries. It empties the queue,
-- detaches all its entries, and puts those of their tasks that sleep at the end of the run queue,
-- in the order of the entries, provided that these tasks are distinct, none of them is queued, the
-- current one or the swapper, and the length of the run queue does not overflow.
pub wakeup_lem :
    (fuel : ℕ) (w : Waits) (s : Sched) (q sw : ℕ) (es l : List ℕ)
    → length es < fuel
    → IsWait w q es
    → IsSched s sw l
    → CanQueue s sw l (sleepers (task_of w) (sleeps_in s) es)
    → (w' : Waits) × (s' : Sched) × (wakeup fuel w s (some q) ≡ some (w', s'))
      × IsWait w' q []
      × AllDetached w'.entries es
      × IsSched s' sw (l ++ sleepers (task_of w) (sleeps_in s) es)
unfolding wakeup
wakeup_lem fuel w s q sw es l enough v vs can =
    let (w', s', e, queues, detached, others, v') =
      wake_loop_lem fuel (set_queue w q empty) s q sw none (w.queues q).head es l (task_of w)
        (sleeps_in s) enough v.links v.distinct (λ x. refl) (λ t. refl) vs can in
    let cleared : w'.queues q ≡ empty = ap (λ f. f q) queues ∙ update_self w.queues q empty in
    (
      w',
      s',
      e,
      record {
        links = ap (λ (x : WaitQueue). x.head) cleared;
        tail = ap (λ (x : WaitQueue). x.tail) cleared;
        distinct = tt;
      },
      detached,
      v',
    )
