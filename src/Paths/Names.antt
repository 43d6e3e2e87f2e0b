-- ===== src/Paths/Names.antt =====
-- What a path means: the list of its names after `.` and `..` are resolved.
use punix.Base.{ℕ, ◌≡◌, refl, ap, true, false, List, [], ◌∷◌, ◌++◌, ◌==◌, if◌then◌else◌, ◌&&◌, All}
use punix.Paths.{is_slash, reverse_onto}

abbrev pub Name : Type 0
Name = List ℕ

-- The first name of a path gets one more character in front.
abbrev pub cons_head : ℕ → List Name → List Name
cons_head c [] = (c ∷ []) ∷ []
cons_head c (n ∷ ns) = (c ∷ n) ∷ ns

-- A character that is followed by a slash or by nothing is a name of its own.
abbrev pub glue : ℕ → List ℕ → List Name → List Name
glue c [] ns = (c ∷ []) ∷ ns
glue c (d ∷ t) ns = if is_slash d then (c ∷ []) ∷ ns else cons_head c ns

-- The parts of a path between its slashes that are not empty.
abbrev pub names : List ℕ → List Name
names [] = []
names (c ∷ t) = if is_slash c then names t else glue c t (names t)

abbrev pub pop_name : List Name → List Name
pop_name [] = []
pop_name (n ∷ ns) = ns

-- `.` stays, `..` goes up, any other name goes down; the list starts with the last name.
abbrev pub walk : Name → List Name → List Name
walk [] ns = ns
walk (c ∷ []) ns = if c == b'.' then ns else (c ∷ []) ∷ ns
walk (c ∷ d ∷ []) ns = if c == b'.' && d == b'.' then pop_name ns else (c ∷ d ∷ []) ∷ ns
walk (c ∷ d ∷ e ∷ n) ns = (c ∷ d ∷ e ∷ n) ∷ ns

abbrev pub walk_all : List Name → List Name → List Name
walk_all [] ns = ns
walk_all (n ∷ rest) ns = walk_all rest (walk n ns)

-- The names with slashes between them.
abbrev pub joined : List Name → List ℕ
joined [] = []
joined (n ∷ []) = n
joined (n ∷ m ∷ ns) = n ++ (b'/' ∷ joined (m ∷ ns))

-- The directory or file that an absolute path leads to, as a list of names, and as a path.
abbrev pub target : List ℕ → List Name
target t = reverse_onto (walk_all (names t) []) []

abbrev pub canonical : List ℕ → List ℕ
canonical t = b'/' ∷ joined (target t)

-- A text with no slash, and one that is empty or starts with a slash.
abbrev pub IsPlain : List ℕ → Type 0
IsPlain w = All (λ c. is_slash c ≡ false) w

abbrev pub AtEnd : List ℕ → Type 0
AtEnd [] = Unit
AtEnd (c ∷ t) = is_slash c ≡ true

-- A name that ends where a slash or the end comes is the first one.
pub names-name :
    (c : ℕ) (w rest : List ℕ)
    → IsPlain (c ∷ w)
    → AtEnd rest
    → names ((c ∷ w) ++ rest) ≡ (c ∷ w) ∷ names rest
names-name c [] [] p e = rw p.0 refl
names-name c [] (d ∷ rest) p e = rw (p.0, e) refl
names-name c (d ∷ w) rest p e =
    let ih = names-name d w rest p.1 e in rw (p.0, p.1.0) (ap (cons_head c) (rw p.1.0 at ih))
