-- ===== src/Paths/Resolve.antt =====
-- `vfs_resolve_path`: absolute names stand for themselves, relative ones go on from the directory.
use punix.Base.{
  ℕ, ◌+◌, ◌<◌, ◌≤◌, ◌≡◌, refl, sym, ap, subst, ◌∙◌, ◌≢◌, arith, Bool, true, false, some, List, [],
  ◌∷◌, ◌++◌, length, length-append, ◌!=◌, if◌then◌else◌, ◌>>=◌, Bool-cases, inl, inr, ne→==,
}
use punix.Buffer.{Buf, Holds}
use punix.Kutils.Strings.Text.{IsText, cstr}
use punix.Paths.{
  normalize, root, is_slash, copy_string, start_at, append_path, resolve_path, max_segments,
}
use punix.Paths.Names.{names, canonical}
use punix.Paths.Normal.{rebuild-nil}
use punix.Paths.Absolute.{normalize_lem}
use punix.Paths.Join.{names-slash_end, copy_string_lem}
use punix.Paths.Append.{Resolved, canonical-names, append_lem}

-- A path name that is empty stands for the root.
abbrev pub dir : List ℕ → List ℕ
dir [] = b'/' ∷ []
dir (c ∷ d) = c ∷ d

abbrev pub starts_slash : List ℕ → Bool
starts_slash [] = false
starts_slash (c ∷ n) = is_slash c

-- The path that a name stands for in a directory.
abbrev pub meant : List ℕ → List ℕ → List ℕ
meant d n = if starts_slash n then n else d ++ (b'/' ∷ n)

names-dir : (d n : List ℕ) → names (dir d ++ (b'/' ∷ n)) ≡ names (d ++ (b'/' ∷ n))
names-dir [] n = refl
names-dir (c ∷ d) n = refl

names-dir_end : (d : List ℕ) → names (dir d) ≡ names (d ++ (b'/' ∷ []))
names-dir_end [] = refl
names-dir_end (c ∷ d) = sym (names-slash_end (c ∷ d))

pub IsText-dir : (d : List ℕ) → IsText d → IsText (dir d)
IsText-dir [] text = (omega arith, tt)
IsText-dir (c ∷ d) text = text

pub length-dir : (d : List ℕ) → length (dir d) ≤ length d + 1
length-dir [] = omega arith
length-dir (c ∷ d) = omega arith

start_at_lem :
    (d rest : List ℕ) (path : Buf) (size : ℕ)
    → IsText d
    → length d + 2 < size
    → (p : Buf) × (start_at (cstr d rest) path size ≡ some p) × Holds p 0 (dir d)
start_at_lem [] rest path size text room =
    let (reads, small, above) = rebuild-nil size 1 path (omega arith) (omega arith) in
    (root path size, refl, reads)
start_at_lem (c ∷ d) rest path size text room =
    let some_c : (c != 0) ≡ true = ground (arith, text.0) in
    let (p, e, holds, below) = copy_string_lem path size 0 (c ∷ d) rest text (omega arith) in
    (p, rw some_c e, holds)

-- A directory path has a last character.
split_last : (d : List ℕ) → (d' : List ℕ) × (x : ℕ) × (dir d ≡ d' ++ (x ∷ []))
split_last [] = ([], b'/', refl)
split_last (c ∷ []) = ([], c, refl)
split_last (c ∷ e ∷ d) =
    let (d', x, split) = split_last (e ∷ d) in (c ∷ d', x, ap (λ l. c ∷ l) split)

resolve-empty :
    (cwd nrest : List ℕ) (path : Buf) (size : ℕ)
    → size ≢ 0
    → resolve_path cwd (some (0 ∷ nrest)) path size
      ≡ start_at cwd path size >>= (λ p. normalize p size)
unfolding resolve_path
resolve-empty cwd nrest path size ne = rw (ne→== size 0 ne) refl

resolve-absolute :
    (cwd : List ℕ) (c : ℕ) (name : List ℕ) (path : Buf) (size : ℕ)
    → size ≢ 0
    → 0 < c
    → is_slash c ≡ true
    → resolve_path cwd (some (c ∷ name)) path size
      ≡ copy_string path size 0 (c ∷ name) >>= (λ p. normalize p size)
unfolding resolve_path
resolve-absolute cwd c name path size ne h slash =
    rw (ne→== size 0 ne, ne→== c 0 (omega arith), slash) refl

resolve-relative :
    (cwd : List ℕ) (c : ℕ) (name : List ℕ) (path : Buf) (size : ℕ)
    → size ≢ 0
    → 0 < c
    → is_slash c ≡ false
    → resolve_path cwd (some (c ∷ name)) path size
      ≡ start_at cwd path size >>= (λ p. append_path p size (c ∷ name))
unfolding resolve_path
resolve-relative cwd c name path size ne h slash =
    rw (ne→== size 0 ne, ne→== c 0 (omega arith), slash) refl

-- `vfs_resolve_path` leaves the canonical form of the path that the name stands for: the name itself
-- if it starts with a slash, else the name behind the current directory, an empty directory being
-- the root and an empty name the directory itself. Directory and name together leave four characters
-- of the buffer free and have less than 62 characters.
pub resolve_lem :
    (d drest n nrest : List ℕ) (path : Buf) (size : ℕ)
    → IsText d
    → IsText n
    → length d + length n + 4 < size
    → length d + length n + 2 < max_segments
    → Resolved (resolve_path (cstr d drest) (some (cstr n nrest)) path size) (meant d n)
resolve_lem d drest [] nrest path size textd textn room few =
    let (p, started, holds) = start_at_lem d drest path size textd (omega arith) in
    let (q, eq, reads, small, above) =
      normalize_lem p size (dir d) (IsText-dir d textd) holds (omega (arith, length-dir d))
        (omega (arith, length-dir d)) in
    (
      q,
      resolve-empty (cstr d drest) nrest path size (λ z. absurd (omega (arith, z)))
          ∙ ap (λ o. o >>= (λ b. normalize b size)) started
          ∙ eq,
      subst (λ l. Holds q 0 l) (canonical-names (dir d) (d ++ (b'/' ∷ [])) (names-dir_end d)) reads,
    )
resolve_lem d drest (c ∷ n) nrest path size textd textn room few = elim (Bool-cases (is_slash c)) [
  | inl q ↦
      let (p, copied, holds, below) =
        copy_string_lem path size 0 (c ∷ n) nrest textn (omega arith) in
      let (out, eq, reads, small, above) =
        normalize_lem p size (c ∷ n) textn holds (omega arith) (omega arith) in
      (
        out,
        resolve-absolute (cstr d drest) c (cstr n nrest) path size (λ z. absurd (omega (arith, z)))
              textn.0 q
            ∙ ap (λ o. o >>= (λ b. normalize b size)) copied
            ∙ eq,
        rw q reads,
      )
  | inr q ↦
      let (p, started, holds) = start_at_lem d drest path size textd (omega arith) in
      let (d', x, split) = split_last d in
      let size_d : length d' + 1 ≤ length d + 1 =
        omega (arith, length-append d' (x ∷ []), ap length split, length-dir d) in
      let (out, eq, reads) =
        append_lem p size d' x (c ∷ n) nrest (subst IsText split (IsText-dir d textd)) textn
          (subst (Holds p 0) split holds) (omega arith) (omega arith) in
      (
        out,
        resolve-relative (cstr d drest) c (cstr n nrest) path size (λ z. absurd (omega (arith, z)))
              textn.0 q
            ∙ ap (λ o. o >>= (λ b. append_path b size (cstr (c ∷ n) nrest))) started
            ∙ eq,
        rw q (
            subst (λ l. Holds out 0 l)
              (ap (λ l. canonical (l ++ (b'/' ∷ c ∷ n))) (sym split)
                ∙ canonical-names (dir d ++ (b'/' ∷ c ∷ n)) (d ++ (b'/' ∷ c ∷ n))
                    (names-dir d (c ∷ n)))
              reads),
      )
]
