-- ===== src/Paths/Absolute.antt =====
-- `vfs_normalize_path` on paths with and without a slash in front.
use punix.Base.{
  ℕ, zero, suc, ◌+◌, ◌<◌, ◌≤◌, ◌≡◌, refl, ap, ◌∙◌, ◌≢◌, arith, true, false, some, List, [], ◌∷◌,
  length, leb, ◌==◌, update, update_self, update_ne, ne→==, eq→==, ℕ_discrete, Bool-cases, inl, inr,
}
use punix.Buffer.{Buf, bytes, Reads, Holds, AgreeFrom}
use punix.Kutils.Strings.{strlen}
use punix.Kutils.Strings.Text.{IsText}
use punix.Paths.{shift, root, collapse, normalize, max_segments, is_slash}
use punix.Paths.Names.{canonical}
use punix.Paths.Normal.{rebuild-nil, collapse_lem, strlen-bytes}

shift_at :
    (n : ℕ) (path : Buf)
    → ((j : ℕ) → j < n → shift n path (suc j) ≡ path j)
      × ((j : ℕ) → n < j → shift n path j ≡ path j)
      × (shift n path 0 ≡ path 0)
shift_at zero path = (λ j h. absurd (omega arith), λ j h. refl, refl)
shift_at (suc n) path =
    let p1 = update path (suc n) (path n) in
    let (moved, same, first) = shift_at n p1 in
    (
      λ j h. elim (ℕ_discrete j n) [
        | yes e ↦ rw e (same (suc n) (omega arith) ∙ update_self path (suc n) (path n))
        | no ne ↦ moved j (omega arith) ∙ update_ne path (suc n) j (path n) (omega arith)
      ],
      λ j h. same j (omega arith) ∙ update_ne path (suc n) j (path n) (omega arith),
      first ∙ update_ne path (suc n) 0 (path n) (omega arith),
    )

Reads-shift :
    (p p' : Buf) (i : ℕ) (t : List ℕ)
    → ((j : ℕ) → j < i + length t → p' (suc j) ≡ p j)
    → Reads p i t
    → Reads p' (i + 1) t
Reads-shift p p' i [] same r = tt
Reads-shift p p' i (c ∷ t) same r =
    let e : i + 1 ≡ suc i = omega arith in
    (
      ap p' e ∙ same i (omega arith) ∙ r.0,
      Reads-shift p p' (i + 1) t (λ j h. same j (omega arith)) r.1,
    )

abbrev pub shifted : Buf → ℕ → Buf
shifted path n = update (shift n path) 0 b'/'

shifted-Reads :
    (path : Buf) (n : ℕ) (t : List ℕ)
    → Reads path 0 t
    → length t ≤ n
    → Reads (shifted path n) 0 (b'/' ∷ t)
shifted-Reads path n t r h = (
  update_self (shift n path) 0 b'/',
  Reads-shift path (shifted path n) 0 t
      (λ j low.
        update_ne (shift n path) 0 (suc j) b'/' (omega arith) ∙ (shift_at n path).0 j (omega arith))
      r,
)

-- A path with no slash in front gets one.
pub Holds-shifted :
    (path : Buf) (t : List ℕ)
    → Holds path 0 t
    → Holds (shifted path (length t + 1)) 0 (b'/' ∷ t)
      × AgreeFrom (length t + 2) path (shifted path (length t + 1))
Holds-shifted path t h =
    let n = length t + 1 in
    let end : 0 + suc (length t) ≡ suc (length t) = omega arith in
    let back : length t ≡ 0 + length t = omega arith in
    (
      (
        shifted-Reads path n t h.0 (omega arith),
        ap (shifted path n) end
            ∙ update_ne (shift n path) 0 (suc (length t)) b'/' (omega arith)
            ∙ (shift_at n path).0 (length t) (omega arith)
            ∙ ap path back
            ∙ h.1,
      ),
      λ j low.
          update_ne (shift n path) 0 j b'/' (omega arith) ∙ (shift_at n path).1 j (omega arith),
    )

normalize-empty :
    (path : Buf) (size : ℕ) → size ≢ 0 → path 0 ≡ 0 → normalize path size ≡ some (root path size)
unfolding normalize
normalize-empty path size ne z = rw (ne→== size 0 ne, eq→== (path 0) 0 z) refl

normalize-slash :
    (path : Buf) (size : ℕ)
    → size ≢ 0
    → is_slash (path 0) ≡ true
    → normalize path size ≡ collapse path size
unfolding normalize
normalize-slash path size ne slash =
    let nul : (path 0 == 0) ≡ false = ground arith in rw (ne→== size 0 ne, nul, slash) refl

normalize-plain :
    (path : Buf) (size len : ℕ)
    → path 0 ≢ 0
    → is_slash (path 0) ≡ false
    → strlen (bytes path 0 size) ≡ some len
    → len + 1 < size
    → normalize path size ≡ collapse (shifted path (len + 1)) size
unfolding normalize
normalize-plain path size len nul plain found room =
    let fits : leb size (len + 1) ≡ false = ground arith in
    rw (ne→== size 0 (omega arith), ne→== (path 0) 0 nul, plain, found) (rw fits refl)

-- The buffer after the call, for a text `t` in a buffer with room for a slash and one character more.
abbrev pub Normalized : Buf → ℕ → List ℕ → Type 0
Normalized path size t =
    (p : Buf) × (normalize path size ≡ some p)
    × Holds p 0 (canonical t)
    × (length (canonical t) ≤ length t + 1)
    × AgreeFrom (length t + 2) path p

-- `vfs_normalize_path` replaces a path in its buffer by its canonical form: absolute, with the parts
-- between the slashes resolved. It stays within the buffer, and the result is at most one character
-- longer, if there was no slash in front. The path leaves two characters of the buffer free, and has
-- at most 63 characters.
pub normalize_lem :
    (path : Buf) (size : ℕ) (t : List ℕ)
    → IsText t
    → Holds path 0 t
    → length t + 2 < size
    → length t < max_segments
    → Normalized path size t
normalize_lem path size [] text h room few =
    let (reads, small, above) = rebuild-nil size 1 path (omega arith) (omega arith) in
    let z : path 0 ≡ 0 = h.1 in
    (root path size, normalize-empty path size (omega arith) z, reads, small, above)
normalize_lem path size (c ∷ t) text h room few = elim (Bool-cases (is_slash c)) [
  | inl e ↦
      let (p, eq, reads, small, above) =
        collapse_lem path size (c ∷ t) text e (omega arith) h (omega arith) (omega arith) in
      (
        p,
        normalize-slash path size (omega arith) (ap is_slash h.0.0 ∙ e) ∙ eq,
        reads,
        omega (arith, small),
        λ j low. above j (omega arith),
      )
  | inr e ↦
      let len = length (c ∷ t) in
      let (h', same) = Holds-shifted path (c ∷ t) h in
      let (p, eq, reads, small, above) =
        collapse_lem (shifted path (len + 1)) size (b'/' ∷ c ∷ t) (omega arith, text) refl
          (omega arith) h' (omega arith) (omega arith) in
      (
        p,
        normalize-plain path size len (λ z. absurd (omega (arith, text.0, h.0.0, z)))
              (ap is_slash h.0.0 ∙ e) (strlen-bytes path (c ∷ t) 0 size text h (omega arith))
              (omega arith)
            ∙ eq,
        reads,
        omega (arith, small),
        λ j low. above j (omega arith) ∙ same j (omega arith),
      )
]
