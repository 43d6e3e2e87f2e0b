-- ===== src/Children/Unlink.antt =====
-- The loop of `sched_waitpid` that takes a child out of the list of its parent.
use punix.Base.{
  ℕ, zero, suc, ◌<◌, ◌≡◌, ◌≢◌, refl, sym, ap, subst, ◌∙◌, arith, Option, some, List, [], ◌∷◌, ◌++◌,
  length, if-true, if-false, eq→==, ne→==, ◌==◌, All, update_self, update_ne, ℕ_discrete,
}
use punix.Task.{Task}
use punix.RunQueue.{Tasks}
use punix.RunQueue.Linked.{NotIn, Distinct}
use punix.Wait.Neighbours.{NotIn-left}
use punix.Children.Search.{Siblings}
use punix.Children.Waitpid.{Link, get_link, set_link, step_link, unlink_child}

abbrev pub owner : Link → ℕ
owner (Link.children_of p) = p
owner (Link.sibling_of x) = x

-- The tasks differ at most in the links of a family.
abbrev pub SameButFamily : Task → Task → Type 0
SameButFamily a b = b ≡ record a { children = b.children; next_sibling = b.next_sibling }

-- The links are those without the child, and only tasks outside `keep` have changed, in links alone.
pub record Unlinked (tasks tasks' : Tasks) (link : Link) (l : List ℕ) (keep : ℕ → Type 0)
    : Type 0 where
  pub siblings : Siblings tasks' (get_link tasks' link) l
  pub kept : (i : ℕ) → keep i → tasks' i ≡ tasks i
  pub others : (i : ℕ) → SameButFamily (tasks i) (tasks' i)

get-set : (tasks : Tasks) (link : Link) (v : Option ℕ) → get_link (set_link tasks link v) link ≡ v
get-set tasks (Link.children_of p) v = ap (λ (t : Task). t.children) (update_self tasks p _)
get-set tasks (Link.sibling_of x) v = ap (λ (t : Task). t.next_sibling) (update_self tasks x _)

set-ne :
    (tasks : Tasks) (link : Link) (v : Option ℕ) (i : ℕ)
    → i ≢ owner link
    → set_link tasks link v i ≡ tasks i
set-ne tasks (Link.children_of p) v i ne = update_ne tasks p i _ ne
set-ne tasks (Link.sibling_of x) v i ne = update_ne tasks x i _ ne

set-SameButFamily :
    (tasks : Tasks) (link : Link) (v : Option ℕ) (i : ℕ)
    → SameButFamily (tasks i) (set_link tasks link v i)
set-SameButFamily tasks (Link.children_of p) v i = elim (ℕ_discrete i p) [
  | yes e ↦ rw (e, update_self) refl
  | no ne ↦ rw (update_ne tasks p i _ ne) refl
]
set-SameButFamily tasks (Link.sibling_of x) v i = elim (ℕ_discrete i x) [
  | yes e ↦ rw (e, update_self) refl
  | no ne ↦ rw (update_ne tasks x i _ ne) refl
]

get-cong :
    (tasks tasks' : Tasks) (link : Link)
    → tasks' (owner link) ≡ tasks (owner link)
    → get_link tasks' link ≡ get_link tasks link
get-cong tasks tasks' (Link.children_of p) e = ap (λ (t : Task). t.children) e
get-cong tasks tasks' (Link.sibling_of x) e = ap (λ (t : Task). t.next_sibling) e

pub Siblings-cong :
    (tasks tasks' : Tasks) (p : Option ℕ) (l : List ℕ) (keep : ℕ → Type 0)
    → ((i : ℕ) → keep i → (tasks' i).next_sibling ≡ (tasks i).next_sibling)
    → All keep l
    → Siblings tasks p l
    → Siblings tasks' p l
Siblings-cong tasks tasks' p [] keep same a s = s
Siblings-cong tasks tasks' p (x ∷ xs) keep same a s = (
  s.0,
  subst (λ q. Siblings tasks' q xs) (sym (same x a.0))
      (Siblings-cong tasks tasks' (tasks x).next_sibling xs keep same a.1 s.1),
)

pub NotIn-All : (x : ℕ) (l : List ℕ) → NotIn x l → All (λ i. i ≢ x) l
NotIn-All x [] n = tt
NotIn-All x (y ∷ ys) n = (λ e. n.0 (sym e), NotIn-All x ys n.1)

pub NotIn-behind :
    (x : ℕ) (before : List ℕ) (y : ℕ) (after : List ℕ) → NotIn x (before ++ (y ∷ after)) → x ≢ y
NotIn-behind x [] y after n = n.0
NotIn-behind x (b ∷ bs) y after n = NotIn-behind x bs y after n.1

-- The tasks that the loop leaves alone: neither the owner of the link nor one in front of the child.
abbrev pub Apart : Link → List ℕ → ℕ → Type 0
Apart link before i = (i ≢ owner link) × NotIn i before

unlink-at :
    (fuel : ℕ) (tasks : Tasks) (link : Link) (child x : ℕ)
    → get_link tasks link ≡ some x
    → unlink_child (suc fuel) tasks link child
      ≡ step_link tasks link child x (unlink_child fuel tasks (Link.sibling_of x) child)
unfolding unlink_child
unlink-at fuel tasks link child x e = rw (e, unlink_child) refl

pub unlink_child_lem :
    (before : List ℕ) (fuel : ℕ) (tasks : Tasks) (link : Link) (child : ℕ) (after : List ℕ)
    → length before < fuel
    → Siblings tasks (get_link tasks link) (before ++ (child ∷ after))
    → Distinct (before ++ (child ∷ after))
    → NotIn (owner link) (before ++ (child ∷ after))
    → (tasks' : Tasks) × (unlink_child fuel tasks link child ≡ some tasks')
      × Unlinked tasks tasks' link (before ++ after) (Apart link before)
unlink_child_lem before zero tasks link child after h s d n = absurd (omega arith)
unlink_child_lem [] (suc fuel) tasks link child after h s d n =
    let v = (tasks child).next_sibling in
    (
      set_link tasks link v,
      unlink-at fuel tasks link child child s.0
          ∙ if-true (child == child) _ _ (eq→== child child refl),
      record {
        siblings =
            subst (λ q. Siblings (set_link tasks link v) q after) (sym (get-set tasks link v))
              (Siblings-cong tasks (set_link tasks link v) v after (λ i. i ≢ owner link)
                (λ i ne. ap (λ (t : Task). t.next_sibling) (set-ne tasks link v i ne))
                (NotIn-All (owner link) after n.1) s.1);
        kept = λ i k. set-ne tasks link v i k.0;
        others = set-SameButFamily tasks link v;
      },
    )
unlink_child_lem (y ∷ ys) (suc fuel) tasks link child after h s d n =
    let (tasks', e, u) =
      unlink_child_lem ys fuel tasks (Link.sibling_of y) child after (omega arith) s.1 d.1 d.0 in
    let mine : tasks' (owner link) ≡ tasks (owner link) =
      u.kept (owner link) (n.0, NotIn-left (owner link) ys (child ∷ after) n.1) in
    (
      tasks',
      unlink-at fuel tasks link child y s.0
          ∙ if-false (y == child) _ _ (ne→== y child (NotIn-behind y ys child after d.0))
          ∙ e,
      record {
        siblings = (get-cong tasks tasks' link mine ∙ s.0, u.siblings);
        kept = λ i k. u.kept i (k.1.0, k.1.1);
        others = u.others;
      },
    )
