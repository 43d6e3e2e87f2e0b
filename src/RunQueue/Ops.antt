-- ===== src/RunQueue/Ops.antt =====
-- The run queue is a first-in first-out queue of distinct tasks.
use punix.Base.{
  update_self, update_ne, ℕ, ◌+◌, ◌<◌, ◌≡◌, refl, ◌≢◌, Option, none, some, List, [], ◌∷◌, ◌++◌,
  arith, length, ap, sym, ◌∙◌, eq→==, ne→==, ℕ_discrete, length-append, ◌==◌, if◌then◌else◌, ◌-◌,
  ◌%◌,
}
use punix.FreeRing.{w32}
use punix.Task.{Task}
use punix.RunQueue.{RunQueue, Tasks, set_next, push, poll}
use punix.RunQueue.Linked.{
  NotIn, last_of, IsQueue, Distinct-snoc, last_of-snoc, last_of-cons, Chain-update, Chain-snoc,
}

-- The tasks differ at most in their `next` fields.
abbrev pub SameButNext : Tasks → Tasks → Type 0
SameButNext tasks tasks' = (i : ℕ) → tasks' i ≡ record (tasks i) { next = (tasks' i).next }

pub set_next-SameButNext :
    (tasks : Tasks) (t : ℕ) (p : Option ℕ) → SameButNext tasks (set_next tasks t p)
set_next-SameButNext tasks t p i = elim (ℕ_discrete i t) [
  | yes e ↦ rw (e, update_self) refl
  | no ne ↦ rw (update_ne tasks t i _ ne) refl
]

pub SameButNext-trans : (a b c : Tasks) → SameButNext a b → SameButNext b c → SameButNext a c
SameButNext-trans a b c h k i = k i ∙ ap (λ (x : Task). record x { next = (c i).next }) (h i)

pub push-linked :
    (rq : RunQueue) (tasks : Tasks) (t z : ℕ)
    → rq.len ≢ 0
    → rq.last ≡ some z
    → push rq tasks t
      ≡ some (
        record rq { last = some t; len = (rq.len + 1) % w32 },
        set_next (set_next tasks t none) z (some t),
      )
unfolding push
push-linked rq tasks t z ne e = rw (ne→== rq.len 0 ne) (rw (e, push) refl)

-- Pushing a task that is not in the queue puts it at the end.
pub push_lem :
    (tasks : Tasks) (rq : RunQueue) (l : List ℕ) (t : ℕ)
    → IsQueue tasks rq l
    → NotIn t l
    → length l + 1 < w32
    → (rq' : RunQueue) × (tasks' : Tasks) × (push rq tasks t ≡ some (rq', tasks'))
      × IsQueue tasks' rq' (l ++ (t ∷ []))
      × SameButNext tasks tasks'
push_lem tasks rq [] t v n room = (
  record { first = some t; last = some t; len = (rq.len + 1) % w32 },
  set_next tasks t none,
  unfold push in rw (eq→== rq.len 0 v.len) refl,
  record {
    chain = (refl, rw update_self refl);
    last = refl;
    len = omega (arith, v.len);
    distinct = (tt, tt);
    small = omega arith;
  },
  set_next-SameButNext tasks t none,
)
push_lem tasks rq (x ∷ xs) t v n room =
    let (z, ez) = last_of-cons x xs in
    let cleared = set_next tasks t none in
    (
      record rq { last = some t; len = (rq.len + 1) % w32 },
      set_next cleared z (some t),
      push-linked rq tasks t z (omega (arith, v.len)) (v.last ∙ ez),
      record {
        chain =
            Chain-snoc cleared rq.first (x ∷ xs) z t v.distinct n
              (Chain-update tasks t _ rq.first (x ∷ xs) n v.chain) (rw update_self refl) ez;
        last = sym (last_of-snoc (x ∷ xs) t);
        len = omega (arith, v.len, length-append (x ∷ xs) (t ∷ []));
        distinct = Distinct-snoc t (x ∷ xs) v.distinct n;
        small = omega (arith, length-append (x ∷ xs) (t ∷ []));
      },
      SameButNext-trans tasks cleared _ (set_next-SameButNext tasks t none)
          (set_next-SameButNext cleared z (some t)),
    )

poll-linked :
    (rq : RunQueue) (tasks : Tasks) (x : ℕ)
    → rq.len ≢ 0
    → rq.first ≡ some x
    → poll rq tasks
      ≡ some (
        some x,
        record {
          first = (tasks x).next;
          last = if rq.len - 1 == 0 then none else rq.last;
          len = rq.len - 1;
        },
        set_next tasks x none,
      )
unfolding poll
poll-linked rq tasks x ne e = rw (ne→== rq.len 0 ne) (rw (e, poll) refl)

-- `run_queue_poll` forgets the last task when the queue gets empty.
last-poll :
    (x : ℕ) (xs : List ℕ) (n : ℕ) (last : Option ℕ)
    → last ≡ last_of (x ∷ xs)
    → n ≡ length (x ∷ xs)
    → (if n - 1 == 0 then none else last) ≡ last_of xs
last-poll x [] n last e en = rw (eq→== (n - 1) 0 (omega (arith, en))) refl
last-poll x (y ∷ ys) n last e en = rw (ne→== (n - 1) 0 (omega (arith, en))) e

-- Polling takes the front of the queue, whose `next` field is cleared.
pub poll_lem :
    (tasks : Tasks) (rq : RunQueue) (x : ℕ) (xs : List ℕ)
    → IsQueue tasks rq (x ∷ xs)
    → (rq' : RunQueue) × (poll rq tasks ≡ some (some x, rq', set_next tasks x none))
      × IsQueue (set_next tasks x none) rq' xs
poll_lem tasks rq x xs v = (
  record {
    first = (tasks x).next;
    last = if rq.len - 1 == 0 then none else rq.last;
    len = rq.len - 1;
  },
  poll-linked rq tasks x (omega (arith, v.len)) v.chain.0,
  record {
    chain = Chain-update tasks x _ (tasks x).next xs v.distinct.0 v.chain.1;
    last = last-poll x xs rq.len rq.last v.last v.len;
    len = omega (arith, v.len);
    distinct = v.distinct.1;
    small = omega (arith, v.small);
  },
)

pub poll-empty :
    (tasks : Tasks) (rq : RunQueue) → IsQueue tasks rq [] → poll rq tasks ≡ some (none, rq, tasks)
unfolding poll
poll-empty tasks rq v = rw (eq→== rq.len 0 v.len) refl
