-- ===== src/Vfs/Prefix.antt =====
-- `path_to_fs` of fs/vfs.c: the mount with the longest path above a path.
use punix.Base.{
  ℕ, zero, suc, ◌<◌, ◌≡◌, refl, sym, ap, subst, ◌∙◌, arith, Bool, true, false, ◌||◌, ◌⊎◌, inl, inr,
  Option, some, List, [], ◌∷◌, ◌++◌, length, take, drop, get_elem?, ◌==◌, ◌>>=◌, Bool-cases, ne→==,
  eq→==, ==_iff,
}
use punix.Base.Int.{ℤ, pos, negsuc}
use punix.Buffer.{Holds}
use punix.Drivers.{max_filename_len}
use punix.Kutils.Strings.Text.{IsText, cstr}
use punix.Kutils.Strings.Copies.{strlen_lem}
use punix.Kutils.Strings.Compare.{Lex, IsNeg, IsPos, Orders, same, below, above, strncmp_lem}
use punix.Paths.{is_slash}
use punix.Paths.Names.{AtEnd}
use punix.Paths.Normal.{bytes-cstr}
use punix.Paths.Join.{take-all}
use punix.Vfs.{Mount, at_border, judge, under}

-- The path of a mount is the text `m`, which is not empty.
abbrev pub IsMount : Mount → List ℕ → Type 0
IsMount mount m = IsText m × Holds mount.path 0 m × (0 < length m) × (length m < max_filename_len)

-- The path `t` goes on from `m` with a slash, or ends there; the root has its slash already.
abbrev pub Under : List ℕ → List ℕ → Type 0
Under m t = (t ≡ m ++ drop (length m) t) × (AtEnd (drop (length m) t) ⊎ (length m ≡ 1))

pub Lex-irrefl : (s : List ℕ) → Lex s s → ⊥
Lex-irrefl [] h = h
Lex-irrefl (x ∷ s) (inl h) = omega arith
Lex-irrefl (x ∷ s) (inr (e, h)) = Lex-irrefl s h

take-append : (m s : List ℕ) → take (length m) (m ++ s) ≡ m
take-append [] s = refl
take-append (c ∷ m) s = ap (λ l. c ∷ l) (take-append m s)

take-drop : (n : ℕ) (t : List ℕ) → t ≡ take n t ++ drop n t
take-drop zero t = refl
take-drop (suc n) [] = refl
take-drop (suc n) (c ∷ t) = ap (λ l. c ∷ l) (take-drop n t)

IsText-drop : (n : ℕ) (t : List ℕ) → IsText t → IsText (drop n t)
IsText-drop zero t h = h
IsText-drop (suc n) [] h = tt
IsText-drop (suc n) (c ∷ t) h = IsText-drop n t h.1

-- The character behind a prefix, the terminator if nothing is left.
abbrev head_or_nul : List ℕ → ℕ
head_or_nul [] = 0
head_or_nul (c ∷ s) = c

get_elem?-behind :
    (m s rest : List ℕ) → get_elem? (cstr (m ++ s) rest) (length m) ≡ some (head_or_nul s)
get_elem?-behind [] [] rest = refl
get_elem?-behind [] (c ∷ s) rest = refl
get_elem?-behind (c ∷ m) s rest = get_elem?-behind m s rest

judge-differs :
    (z : ℤ) (p : List ℕ) (len : ℕ) → IsNeg z ⊎ IsPos z → judge z p len ≡ some (false, len)
judge-differs (pos zero) p len (inl h) = absurd h
judge-differs (pos zero) p len (inr h) = absurd (omega arith)
judge-differs (pos (suc n)) p len h = refl
judge-differs (negsuc n) p len h = refl

-- What `under` returns for the mount `m`.
abbrev Judged : Option (Bool × ℕ) → List ℕ → List ℕ → Type 0
Judged r m t =
    (b : Bool) × (r ≡ some (b, length m)) × (b ≡ true → Under m t) × (b ≡ false → Under m t → ⊥)

abbrev border : ℕ → ℕ → Bool
border c len = c == 0 || (is_slash c || len == 1)

border-true : (s : List ℕ) (n : ℕ) → IsText s → border (head_or_nul s) n ≡ true → AtEnd s ⊎ (n ≡ 1)
border-true [] n text h = inl tt
border-true (c ∷ s) n text h = elim (Bool-cases (is_slash c)) [
  | inl q ↦ inl q
  | inr q ↦ inr ((==_iff n 1).0 (rw (ne→== c 0 (omega (arith, text.0)), q) at h))
]

border-false :
    (s : List ℕ) (n : ℕ) → IsText s → border (head_or_nul s) n ≡ false → AtEnd s ⊎ (n ≡ 1) → ⊥
border-false [] n text h k = absurd (cc)
border-false (c ∷ s) n text h (inl q) = absurd (cc (rw (ne→== c 0 (omega (arith, text.0)), q) at h))
border-false (c ∷ s) n text h (inr e) = elim (Bool-cases (is_slash c)) [
  | inl q ↦ absurd (cc (rw (ne→== c 0 (omega (arith, text.0)), q) at h))
  | inr q ↦ absurd (cc (rw (ne→== c 0 (omega (arith, text.0)), q, eq→== n 1 e) at h))
]

judge_same :
    (m t s rest : List ℕ)
    → IsText s
    → t ≡ m ++ s
    → s ≡ drop (length m) t
    → Judged (judge (pos 0) (cstr t rest) (length m)) m t
judge_same m t s rest text e d = (
  border (head_or_nul s) (length m),
  ap (λ o. at_border o (length m) >>= (λ b. some (b, length m)))
      (ap (λ l. get_elem? (cstr l rest) (length m)) e ∙ get_elem?-behind m s rest),
  λ h. (
    e ∙ ap (λ l. m ++ l) d,
    subst (λ l. AtEnd l ⊎ (length m ≡ 1)) d (border-true s (length m) text h),
  ),
  λ h u. border-false s (length m) text h (subst (λ l. AtEnd l ⊎ (length m ≡ 1)) (sym d) u.1),
)

judge-apart :
    (z : ℤ) (m t rest : List ℕ)
    → IsNeg z ⊎ IsPos z
    → Lex (take (length m) t) (take (length m) m) ⊎ Lex (take (length m) m) (take (length m) t)
    → Judged (judge z (cstr t rest) (length m)) m t
judge-apart z m t rest sign lex =
    let whole = take-all (length m) m (omega arith) in
    (
      false,
      judge-differs z (cstr t rest) (length m) sign,
      λ h. absurd (cc),
      λ h u.
          let front : take (length m) t ≡ m =
            ap (take (length m)) u.0 ∙ take-append m (drop (length m) t) in
          elim lex [
            | inl l ↦ Lex-irrefl m (rw (front, whole) at l)
            | inr l ↦ Lex-irrefl m (rw (front, whole) at l)
          ],
    )

judge-Orders :
    (z : ℤ) (m t rest : List ℕ)
    → IsText t
    → Orders z (take (length m) t) (take (length m) m)
    → Judged (judge z (cstr t rest) (length m)) m t
judge-Orders z m t rest text (same e p) =
    let front : take (length m) t ≡ m = p ∙ take-all (length m) m (omega arith) in
    rw e (
      judge_same m t (drop (length m) t) rest (IsText-drop (length m) t text)
        (take-drop (length m) t ∙ ap (λ l. l ++ drop (length m) t) front) refl)
judge-Orders z m t rest text (below neg lex) = judge-apart z m t rest (inl neg) (inl lex)
judge-Orders z m t rest text (above p lex) = judge-apart z m t rest (inr p) (inr lex)

pub under_lem :
    (mount : Mount) (m t rest : List ℕ)
    → IsMount mount m
    → IsText t
    → Judged (under mount (cstr t rest)) m t
unfolding under
under_lem mount m t rest (textm, holds, some_m, short) text =
    let (pad, eq) = bytes-cstr mount.path m 0 max_filename_len holds short in
    let (z, compared, orders) = strncmp_lem (length m) t m rest pad text textm in
    let (b, judged, holds_under, apart) = judge-Orders z m t rest text orders in
    (b, rw eq (rw (strlen_lem m pad textm) (rw compared judged)), holds_under, apart)
