-- ===== src/Paths/Join.antt =====
-- A relative path behind a directory: the names of both, one after the other.
use punix.Base.{
  ℕ, zero, suc, ◌+◌, ◌-◌, ◌<◌, ◌≤◌, ◌≡◌, refl, ap, ap₂, ◌∙◌, arith, some, List, [], ◌∷◌, ◌++◌,
  append-nil, length, take, drop, replicate, update, update_self, update_ne, Bool-cases, inl, inr,
  ℕ_discrete,
}
use punix.Buffer.{
  Buf, bytes, store, Reads, Holds, Reads-cong, Reads-store, store_below, length-bytes, AgreeBelow,
}
use punix.Kutils.Strings.{strncpy}
use punix.Kutils.Strings.Text.{IsText, cstr}
use punix.Kutils.Strings.Copies.{strncpy_lem}
use punix.Paths.{copy_string, is_slash}
use punix.Paths.Names.{Name, names, glue, cons_head}

cons_head-glue :
    (c e : ℕ) (t : List ℕ) (ns ms : List Name)
    → cons_head c (glue e t ns ++ ms) ≡ cons_head c (glue e t ns) ++ ms
cons_head-glue c e [] ns ms = refl
cons_head-glue c e (d ∷ t) ns ms = elim (Bool-cases (is_slash d)) [
  | inl q ↦ rw q refl
  | inr q ↦ rw q (head ns)
]
  where
    head : (l : List Name) → cons_head c (cons_head e l ++ ms) ≡ cons_head c (cons_head e l) ++ ms
    head [] = refl
    head (n ∷ l) = refl

pub names-join : (d n : List ℕ) → names (d ++ (b'/' ∷ n)) ≡ names d ++ names n
names-join [] n = refl
names-join (c ∷ []) n = elim (Bool-cases (is_slash c)) [ inl q ↦ rw q refl | inr q ↦ rw q refl ]
names-join (c ∷ e ∷ d) n =
    let ih = names-join (e ∷ d) n in
    elim (Bool-cases (is_slash c)) [
      | inl q ↦ rw q ih
      | inr q ↦ elim (Bool-cases (is_slash e)) [
        | inl r ↦ rw (q, r) (ap (λ l. (c ∷ []) ∷ l) (rw r at ih))
        | inr r ↦
            rw (q, r) (ap (cons_head c) (rw r at ih) ∙ cons_head-glue c e d (names d) (names n))
      ]
    ]

-- A slash at the end of a path names nothing.
pub names-slash_end : (d : List ℕ) → names (d ++ (b'/' ∷ [])) ≡ names d
names-slash_end d = names-join d [] ∙ append-nil (names d)

pub take-all : (n : ℕ) (t : List ℕ) → length t ≤ n → take n t ≡ t
take-all zero [] h = refl
take-all zero (c ∷ t) h = absurd (omega arith)
take-all (suc n) [] h = refl
take-all (suc n) (c ∷ t) h = ap (λ l. c ∷ l) (take-all n t (omega arith))

pub Reads-left : (p : Buf) (i : ℕ) (s t : List ℕ) → Reads p i (s ++ t) → Reads p i s
Reads-left p i [] t r = tt
Reads-left p i (c ∷ s) t r = (r.0, Reads-left p (i + 1) s t r.1)

pub Reads-next :
    (p : Buf) (i : ℕ) (s : List ℕ) (c : ℕ) (t : List ℕ)
    → Reads p i (s ++ (c ∷ t))
    → p (i + length s) ≡ c
Reads-next p i [] c t r = let e : i + 0 ≡ i = omega arith in ap p e ∙ r.0
Reads-next p i (d ∷ s) c t r =
    let e : i + suc (length s) ≡ i + 1 + length s = omega arith in
    ap p e ∙ Reads-next p (i + 1) s c t r.1

padded :
    (n : ℕ) (dest t : List ℕ)
    → length t < n
    → (pad : List ℕ) × (take n t ++ (replicate (n - length t) 0 ++ drop n dest) ≡ cstr t pad)
padded n dest t h =
    let e : n - length t ≡ suc (n - length t - 1) = omega arith in
    (
      replicate (n - length t - 1) 0 ++ drop n dest,
      ap₂ (λ l m. l ++ (replicate m 0 ++ drop n dest)) (take-all n t (omega arith)) e,
    )

-- A string that fits is copied with its terminator; what is in front of it stays.
pub copy_string_lem :
    (path : Buf) (size i : ℕ) (t rest : List ℕ)
    → IsText t
    → i + length t < size
    → (p : Buf) × (copy_string path size i (cstr t rest) ≡ some p)
      × Holds p i t
      × AgreeBelow i path p
copy_string_lem path size i t rest text room =
    let n = size - i in
    let dest = bytes path i n in
    let (pad, shape) = padded n dest t (omega arith) in
    let copied : strncpy dest (cstr t rest) n ≡ some (cstr t pad) =
      strncpy_lem n t rest dest text (omega (arith, length-bytes path i n)) ∙ ap some shape in
    let p1 = store path i (cstr t pad) in
    let p = update p1 (size - 1) 0 in
    let whole = Reads-store path i (cstr t pad) in
    (
      p,
      rw copied refl,
      (
        Reads-cong p1 p i t (λ j low high. update_ne p1 (size - 1) j 0 (omega arith))
            (Reads-left p1 i t (0 ∷ pad) whole),
        elim (ℕ_discrete (i + length t) (size - 1)) [
          | yes e ↦ ap p e ∙ update_self p1 (size - 1) 0
          | no ne ↦ update_ne p1 (size - 1) (i + length t) 0 ne ∙ Reads-next p1 i t 0 pad whole
        ],
      ),
      λ j h. update_ne p1 (size - 1) j 0 (omega arith) ∙ store_below path i (cstr t pad) j h,
    )
