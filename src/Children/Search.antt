-- ===== src/Children/Search.antt =====
-- The searches find the first child that passes their test.
use punix.Base.{
  ℕ, zero, suc, ◌<◌, ◌≡◌, refl, ap, arith, Option, none, some, List, [], ◌∷◌, ◌++◌, length, Bool,
  true, false, Bool-cases, inl, inr,
}
use punix.Base.Int.{ℤ}
use punix.Task.{Task}
use punix.RunQueue.{Tasks}
use punix.Children.{find_from, find_child_by_pid, find_zombie_child, same_pid, is_zombie}

-- From `p` the `next_sibling` fields lead through the list and end there.
abbrev pub Siblings : Tasks → Option ℕ → List ℕ → Type 0
Siblings tasks p [] = p ≡ none
Siblings tasks p (x ∷ xs) = (p ≡ some x) × Siblings tasks (tasks x).next_sibling xs

abbrev pub AllFail : (Task → Bool) → Tasks → List ℕ → Type 0
AllFail test tasks [] = Unit
AllFail test tasks (x ∷ xs) = (test (tasks x) ≡ false) × AllFail test tasks xs

-- The first of the list that passes the test, or a null pointer if none does.
abbrev pub IsFirst : (Task → Bool) → Tasks → List ℕ → Option ℕ → Type 0
IsFirst test tasks l none = AllFail test tasks l
IsFirst test tasks l (some x) =
    (before after : List ℕ) × (l ≡ before ++ (x ∷ after))
    × AllFail test tasks before
    × (test (tasks x) ≡ true)

find_from_lem :
    (fuel : ℕ) (test : Task → Bool) (tasks : Tasks) (p : Option ℕ) (l : List ℕ)
    → length l < fuel
    → Siblings tasks p l
    → (r : Option ℕ) × (find_from fuel test tasks p ≡ some r) × IsFirst test tasks l r
unfolding find_from
find_from_lem zero test tasks p l enough c = absurd (omega (arith, enough))
find_from_lem (suc fuel) test tasks p [] enough c = (none, rw c refl, tt)
find_from_lem (suc fuel) test tasks p (x ∷ xs) enough c = elim (Bool-cases (test (tasks x))) [
  | inl e ↦ (some x, rw (c.0, e) refl, ([], xs, refl, tt, e))
  | inr e ↦
      let (r, er, first) =
        find_from_lem fuel test tasks (tasks x).next_sibling xs (omega (arith, enough)) c.1 in
      (r, rw (c.0, e) er, behind r first e)
]
  where
    behind :
        (r : Option ℕ)
        → IsFirst test tasks xs r
        → test (tasks x) ≡ false
        → IsFirst test tasks (x ∷ xs) r
    behind none first e = (e, first)
    behind (some y) (before, after, split, fails, passes) e =
        (x ∷ before, after, ap (λ l. x ∷ l) split, (e, fails), passes)

-- `find_child_by_pid` and `find_zombie_child` end, given more fuel than there are children, and find
-- the first child with the pid and the first zombie, or a null pointer if there is none.
pub find_child_by_pid-find_zombie_child :
    (fuel : ℕ) (tasks : Tasks) (parent : ℕ) (pid : ℤ) (l : List ℕ)
    → length l < fuel
    → Siblings tasks (tasks parent).children l
    → ((r : Option ℕ) × (find_child_by_pid fuel tasks parent pid ≡ some r)
        × IsFirst (λ task. same_pid task.pid pid) tasks l r)
      × ((r : Option ℕ) × (find_zombie_child fuel tasks parent ≡ some r)
          × IsFirst (λ task. is_zombie task.state) tasks l r)
find_child_by_pid-find_zombie_child fuel tasks parent pid l enough c = (
  find_from_lem fuel (λ task. same_pid task.pid pid) tasks (tasks parent).children l enough c,
  find_from_lem fuel (λ task. is_zombie task.state) tasks (tasks parent).children l enough c,
)
