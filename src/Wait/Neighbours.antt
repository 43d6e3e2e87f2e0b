-- ===== src/Wait/Neighbours.antt =====
-- Lists of entries around one of them, and its neighbours.
use punix.Base.{ℕ, ◌≡◌, refl, ◌≢◌, Option, none, some, List, [], ◌∷◌, ◌++◌}
use punix.RunQueue.Linked.{NotIn, Distinct, last_of}
use punix.Wait.Linked.{Entries, Links}

abbrev pub OptOut : Option ℕ → List ℕ → Type 0
OptOut none l = Unit
OptOut (some x) l = NotIn x l

abbrev pub first_of : List ℕ → Option ℕ
first_of [] = none
first_of (x ∷ xs) = some x

abbrev pub last_or : Option ℕ → List ℕ → Option ℕ
last_or p [] = p
last_or p (x ∷ xs) = last_or (some x) xs

-- Where the list starts when its part `xs` is followed by `n`.
abbrev pub start : List ℕ → Option ℕ → Option ℕ → Option ℕ
start [] c n = n
start (x ∷ xs) c n = c

pub OptOut-ne : (p : Option ℕ) (x : ℕ) (l : List ℕ) → OptOut p (x ∷ l) → p ≢ some x
OptOut-ne none x l o e = cc
OptOut-ne (some y) x l o e = o.0 (cc)

pub OptOut-rest : (p : Option ℕ) (x : ℕ) (l : List ℕ) → OptOut p (x ∷ l) → OptOut p l
OptOut-rest none x l o = tt
OptOut-rest (some y) x l o = o.1

pub NotIn-right : (x : ℕ) (xs l : List ℕ) → NotIn x (xs ++ l) → NotIn x l
NotIn-right x [] l n = n
NotIn-right x (y ∷ ys) l n = NotIn-right x ys l n.1

pub NotIn-left : (x : ℕ) (xs l : List ℕ) → NotIn x (xs ++ l) → NotIn x xs
NotIn-left x [] l n = tt
NotIn-left x (y ∷ ys) l n = (n.0, NotIn-left x ys l n.1)

pub NotIn-drop : (x e : ℕ) (xs ys : List ℕ) → NotIn x (xs ++ (e ∷ ys)) → NotIn x (xs ++ ys)
NotIn-drop x e [] ys n = n.1
NotIn-drop x e (y ∷ xs) ys n = (n.0, NotIn-drop x e xs ys n.1)

pub Distinct-right : (xs l : List ℕ) → Distinct (xs ++ l) → Distinct l
Distinct-right [] l d = d
Distinct-right (x ∷ xs) l d = Distinct-right xs l d.1

pub Distinct-drop : (e : ℕ) (xs ys : List ℕ) → Distinct (xs ++ (e ∷ ys)) → Distinct (xs ++ ys)
Distinct-drop e [] ys d = d.1
Distinct-drop e (x ∷ xs) ys d = (NotIn-drop x e xs ys d.0, Distinct-drop e xs ys d.1)

pub first_of-ne : (x : ℕ) (l : List ℕ) → NotIn x l → first_of l ≢ some x
first_of-ne x [] n e = cc
first_of-ne x (y ∷ l) n e = n.0 (cc)

pub last_or-ne :
    (x : ℕ) (p : Option ℕ) (xs : List ℕ) → p ≢ some x → NotIn x xs → last_or p xs ≢ some x
last_or-ne x p [] ne n = ne
last_or-ne x p (y ∷ ys) ne n = last_or-ne x (some y) ys (λ e. n.0 (cc)) n.1

-- The neighbours of an entry in a queue.
pub next-first :
    (es : Entries) (q e : ℕ) (prev cur : Option ℕ) (xs ys : List ℕ)
    → Links es q prev cur (xs ++ (e ∷ ys))
    → ((es e).next ≡ first_of ys) × ((es e).prev ≡ last_or prev xs) × ((es e).queue ≡ some q)
next-first es q e prev cur [] [] c = (c.3, c.1, c.2)
next-first es q e prev cur [] (y ∷ ys) c = (c.3.0, c.1, c.2)
next-first es q e prev cur (x ∷ xs) ys c = next-first es q e (some x) (es x).next xs ys c.3

pub last_of-append :
    (xs : List ℕ) (y : ℕ) (ys : List ℕ) → last_of (xs ++ (y ∷ ys)) ≡ last_of (y ∷ ys)
last_of-append [] y ys = refl
last_of-append (x ∷ []) y ys = refl
last_of-append (x ∷ z ∷ xs) y ys = last_of-append (z ∷ xs) y ys

pub last_or-last_of : (x : ℕ) (xs : List ℕ) → last_or (some x) xs ≡ last_of (x ∷ xs)
last_or-last_of x [] = refl
last_or-last_of x (y ∷ ys) = last_or-last_of y ys

pub last_or-none : (xs : List ℕ) → last_or none xs ≡ last_of xs
last_or-none [] = refl
last_or-none (x ∷ xs) = last_or-last_of x xs
