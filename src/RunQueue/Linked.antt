-- ===== src/RunQueue/Linked.antt =====
-- Lists of tasks that are linked through their `next` fields.
use punix.Base.{
  update, update_self, update_ne, ℕ, ◌<◌, ◌≡◌, refl, ◌≢◌, Option, none, some, List, [], ◌∷◌, ◌++◌,
  length, sym,
}
use punix.FreeRing.{w32}
use punix.Task.{Task}
use punix.RunQueue.{RunQueue, Tasks, set_next}

abbrev pub NotIn : ℕ → List ℕ → Type 0
NotIn x [] = Unit
NotIn x (y ∷ ys) = (x ≢ y) × NotIn x ys

abbrev pub Distinct : List ℕ → Type 0
Distinct [] = Unit
Distinct (x ∷ xs) = NotIn x xs × Distinct xs

abbrev pub last_of : List ℕ → Option ℕ
last_of [] = none
last_of (x ∷ []) = some x
last_of (x ∷ y ∷ ys) = last_of (y ∷ ys)

-- From `p` the `next` fields lead through the list and end there.
abbrev pub Chain : Tasks → Option ℕ → List ℕ → Type 0
Chain tasks p [] = p ≡ none
Chain tasks p (x ∷ xs) = (p ≡ some x) × Chain tasks (tasks x).next xs

-- The queue holds exactly the tasks of the list, in this order, each once.
pub record IsQueue (tasks : Tasks) (rq : RunQueue) (l : List ℕ) : Type 0 where
  pub chain : Chain tasks rq.first l
  pub last : rq.last ≡ last_of l
  pub len : rq.len ≡ length l
  pub distinct : Distinct l
  pub small : length l < w32

pub NotIn-last : (x : ℕ) (l : List ℕ) (z : ℕ) → NotIn x l → last_of l ≡ some z → x ≢ z
NotIn-last x [] z n e = cc
NotIn-last x (y ∷ []) z n e = λ q. n.0 (cc)
NotIn-last x (y ∷ w ∷ ys) z n e = NotIn-last x (w ∷ ys) z n.1 e

pub NotIn-snoc : (x t : ℕ) (l : List ℕ) → NotIn x l → x ≢ t → NotIn x (l ++ (t ∷ []))
NotIn-snoc x t [] n ne = (ne, tt)
NotIn-snoc x t (y ∷ ys) n ne = (n.0, NotIn-snoc x t ys n.1 ne)

pub Distinct-snoc : (t : ℕ) (l : List ℕ) → Distinct l → NotIn t l → Distinct (l ++ (t ∷ []))
Distinct-snoc t [] d n = (tt, tt)
Distinct-snoc t (y ∷ ys) d n =
    (NotIn-snoc y t ys d.0 (λ e. n.0 (sym e)), Distinct-snoc t ys d.1 n.1)

pub last_of-snoc : (l : List ℕ) (t : ℕ) → last_of (l ++ (t ∷ [])) ≡ some t
last_of-snoc [] t = refl
last_of-snoc (x ∷ []) t = refl
last_of-snoc (x ∷ y ∷ ys) t = last_of-snoc (y ∷ ys) t

pub last_of-cons : (x : ℕ) (xs : List ℕ) → (z : ℕ) × (last_of (x ∷ xs) ≡ some z)
last_of-cons x [] = (x, refl)
last_of-cons x (y ∷ ys) = last_of-cons y ys

-- A chain depends only on the `next` fields of its tasks.
pub Chain-cong :
    (tasks tasks' : Tasks) (p : Option ℕ) (l : List ℕ)
    → ((x : ℕ) → (tasks' x).next ≡ (tasks x).next)
    → Chain tasks p l
    → Chain tasks' p l
Chain-cong tasks tasks' p [] same c = c
Chain-cong tasks tasks' p (x ∷ xs) same c =
    (c.0, rw (same x) (Chain-cong tasks tasks' (tasks x).next xs same c.1))

pub Chain-update :
    (tasks : Tasks) (t : ℕ) (v : Task) (p : Option ℕ) (l : List ℕ)
    → NotIn t l
    → Chain tasks p l
    → Chain (update tasks t v) p l
Chain-update tasks t v p [] n c = c
Chain-update tasks t v p (x ∷ xs) n c = (
  c.0,
  rw (update_ne tasks t x v (λ e. n.0 (sym e))) (Chain-update tasks t v (tasks x).next xs n.1 c.1),
)

-- The last task of a chain leads nowhere.
pub Chain-last :
    (tasks : Tasks) (p : Option ℕ) (l : List ℕ) (z : ℕ)
    → Chain tasks p l
    → last_of l ≡ some z
    → (tasks z).next ≡ none
Chain-last tasks p [] z c e = cc
Chain-last tasks p (x ∷ []) z c e = let same : x ≡ z = cc in rw (← same) c.1
Chain-last tasks p (x ∷ y ∷ ys) z c e = Chain-last tasks (tasks x).next (y ∷ ys) z c.1 e

-- Linking a task behind the last one.
pub Chain-snoc :
    (tasks : Tasks) (p : Option ℕ) (l : List ℕ) (z t : ℕ)
    → Distinct l
    → NotIn t l
    → Chain tasks p l
    → (tasks t).next ≡ none
    → last_of l ≡ some z
    → Chain (set_next tasks z (some t)) p (l ++ (t ∷ []))
Chain-snoc tasks p [] z t d n c end e = absurd (cc)
Chain-snoc tasks p (x ∷ []) z t d n c end e =
    let same : z ≡ x = cc in
    rw same (c.0, (rw update_self refl, rw (update_ne tasks x t _ n.0) end))
Chain-snoc tasks p (x ∷ y ∷ ys) z t d n c end e = (
  c.0,
  rw (update_ne tasks z x _ (NotIn-last x (y ∷ ys) z d.0 e))
      (Chain-snoc tasks (tasks x).next (y ∷ ys) z t d.1 n.1 c.1 end e),
)
