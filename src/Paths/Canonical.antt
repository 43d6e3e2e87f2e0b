-- ===== src/Paths/Canonical.antt =====
-- A canonical path is a text, as the path is.
use punix.Base.{◌<◌, arith, ℕ, List, [], ◌∷◌, All, Bool-cases, inl, inr, ◌==◌, ◌&&◌}
use punix.Kutils.Strings.Text.{IsText}
use punix.Paths.{is_slash, reverse_onto}
use punix.Paths.Names.{Name, names, glue, cons_head, walk, walk_all, pop_name, joined, canonical}
use punix.Paths.Append.{IsText-append}

abbrev AreTexts : List Name → Type 0
AreTexts ns = All IsText ns

cons_head-AreTexts : (c : ℕ) (ns : List Name) → 0 < c → AreTexts ns → AreTexts (cons_head c ns)
cons_head-AreTexts c [] h k = ((h, tt), tt)
cons_head-AreTexts c (n ∷ ns) h k = ((h, k.0), k.1)

glue-AreTexts : (c : ℕ) (t : List ℕ) (ns : List Name) → 0 < c → AreTexts ns → AreTexts (glue c t ns)
glue-AreTexts c [] ns h k = ((h, tt), k)
glue-AreTexts c (d ∷ t) ns h k = elim (Bool-cases (is_slash d)) [
  | inl q ↦ rw q ((h, tt), k)
  | inr q ↦ rw q (cons_head-AreTexts c ns h k)
]

names-AreTexts : (t : List ℕ) → IsText t → AreTexts (names t)
names-AreTexts [] h = tt
names-AreTexts (c ∷ t) h = elim (Bool-cases (is_slash c)) [
  | inl q ↦ rw q (names-AreTexts t h.1)
  | inr q ↦ rw q (glue-AreTexts c t (names t) h.0 (names-AreTexts t h.1))
]

pop_name-AreTexts : (ns : List Name) → AreTexts ns → AreTexts (pop_name ns)
pop_name-AreTexts [] k = tt
pop_name-AreTexts (n ∷ ns) k = k.1

walk-AreTexts : (n : Name) (ns : List Name) → IsText n → AreTexts ns → AreTexts (walk n ns)
walk-AreTexts [] ns h k = k
walk-AreTexts (c ∷ []) ns h k = elim (Bool-cases (c == b'.')) [
  | inl q ↦ rw q k
  | inr q ↦ rw q (h, k)
]
walk-AreTexts (c ∷ d ∷ []) ns h k = elim (Bool-cases (c == b'.' && d == b'.')) [
  | inl q ↦ rw q (pop_name-AreTexts ns k)
  | inr q ↦ rw q (h, k)
]
walk-AreTexts (c ∷ d ∷ e ∷ n) ns h k = (h, k)

walk_all-AreTexts : (l ns : List Name) → AreTexts l → AreTexts ns → AreTexts (walk_all l ns)
walk_all-AreTexts [] ns h k = k
walk_all-AreTexts (n ∷ l) ns h k = walk_all-AreTexts l (walk n ns) h.1 (walk-AreTexts n ns h.0 k)

reverse_onto-AreTexts : (l ns : List Name) → AreTexts l → AreTexts ns → AreTexts (reverse_onto l ns)
reverse_onto-AreTexts [] ns h k = k
reverse_onto-AreTexts (n ∷ l) ns h k = reverse_onto-AreTexts l (n ∷ ns) h.1 (h.0, k)

joined-IsText : (ns : List Name) → AreTexts ns → IsText (joined ns)
joined-IsText [] k = tt
joined-IsText (n ∷ []) k = k.0
joined-IsText (n ∷ m ∷ ns) k =
    IsText-append n (b'/' ∷ joined (m ∷ ns)) k.0 (omega arith, joined-IsText (m ∷ ns) k.1)

pub canonical-IsText : (t : List ℕ) → IsText t → IsText (canonical t)
canonical-IsText t h =
    let ns = walk_all (names t) [] in
    (
      omega arith,
      joined-IsText (reverse_onto ns [])
          (reverse_onto-AreTexts ns [] (walk_all-AreTexts (names t) [] (names-AreTexts t h) tt) tt),
    )
