-- ===== src/Kutils/Strings/Compare.antt =====
-- `k_strcmp` and `k_strncmp` decide the lexicographic order of byte strings.
use punix.Base.{
  ℕ, zero, suc, ◌≤◌, ◌<◌, ◌≡◌, refl, true, false, Option, some, List, [], ◌∷◌, arith, take, ◌⊎◌,
  inl, inr, ◌==◌, ◌!=◌, ◌≢◌, dec_lt, ◌-◌, ◌&&◌, ◌||◌, sym,
}
use native.Mathlib.Decide.{ℕ_discrete}
use punix.Base.Int.{ℤ, pos, negsuc, sub_ℕ}
use punix.Kutils.Strings.{strcmp, strncmp}
use punix.Kutils.Strings.Text.{IsText, cstr}

-- The strict lexicographic order.
abbrev pub Lex : List ℕ → List ℕ → Type 0
Lex [] [] = ⊥
Lex [] (y ∷ t) = Unit
Lex (x ∷ s) [] = ⊥
Lex (x ∷ s) (y ∷ t) = (x < y) ⊎ ((x ≡ y) × Lex s t)

abbrev pub IsNeg : ℤ → Type 0
IsNeg (pos n) = ⊥
IsNeg (negsuc n) = Unit

abbrev pub IsPos : ℤ → Type 0
IsPos (pos n) = 0 < n
IsPos (negsuc n) = ⊥

-- The sign of `z` says how `s` and `t` are ordered.
pub data Orders : ℤ → List ℕ → List ℕ → Type 0 where
  same : {z : ℤ} {s t : List ℕ} → z ≡ pos 0 → s ≡ t → Orders z s t
  below : {z : ℤ} {s t : List ℕ} → IsNeg z → Lex s t → Orders z s t
  above : {z : ℤ} {s t : List ℕ} → IsPos z → Lex t s → Orders z s t

Orders-cons : {z : ℤ} {s t : List ℕ} (x y : ℕ) → x ≡ y → Orders z s t → Orders z (x ∷ s) (y ∷ t)
Orders-cons x y e (same p q) = same p (cc)
Orders-cons x y e (below p q) = below p (inr (e, q))
Orders-cons x y e (above p q) = above p (inr (sym e, q))

sub-neg : (x y : ℕ) → x < y → sub_ℕ x y ≡ negsuc (y - x - 1)
sub-neg x y h = ground arith

sub-pos : (x y : ℕ) → y ≤ x → sub_ℕ x y ≡ pos (x - y)
sub-pos x y h = ground arith

Orders-head : (x y : ℕ) (s t : List ℕ) → x ≢ y → Orders (sub_ℕ x y) (x ∷ s) (y ∷ t)
Orders-head x y s t ne = elim (dec_lt x y) [
  | yes lt ↦ below (rw (sub-neg x y lt) tt) (inl lt)
  | no ge ↦ above (rw (sub-pos x y (omega arith)) (omega arith)) (inl (omega arith))
]

-- What one call returns: a number whose sign orders the two strings.
abbrev pub Compared : Option ℤ → List ℕ → List ℕ → Type 0
Compared r s t = (z : ℤ) × (r ≡ some z) × Orders z s t

Compared-cons :
    (r : Option ℤ) (x y : ℕ) (s t : List ℕ) → x ≡ y → Compared r s t → Compared r (x ∷ s) (y ∷ t)
Compared-cons r x y s t e (z, p, o) = (z, p, Orders-cons x y e o)

-- A terminator that stops the comparison first.
Compared-zero_left : (y : ℕ) (t : List ℕ) → 0 < y → Compared (some (sub_ℕ 0 y)) [] (y ∷ t)
Compared-zero_left y t h = (sub_ℕ 0 y, refl, below (rw (sub-neg 0 y h) tt) tt)

Compared-zero_right : (x : ℕ) (s : List ℕ) → 0 < x → Compared (some (sub_ℕ x 0)) (x ∷ s) []
Compared-zero_right x s h =
    (sub_ℕ x 0, refl, above (rw (sub-pos x 0 (omega arith)) (omega arith)) tt)

Compared-head : (x y : ℕ) (s t : List ℕ) → x ≢ y → Compared (some (sub_ℕ x y)) (x ∷ s) (y ∷ t)
Compared-head x y s t ne = (sub_ℕ x y, refl, Orders-head x y s t ne)

-- The loop tests of both functions.
goes_on : (x y : ℕ) → x ≡ y → 0 < x → (x != 0 && x == y) ≡ true
goes_on x y e h = ground arith

differs : (x y : ℕ) → x ≢ y → (x != 0 && x == y) ≡ false
differs x y e = ground arith

goes_on_n : (x y : ℕ) → x ≡ y → 0 < x → (x != y || (x == 0 || y == 0)) ≡ false
goes_on_n x y e h = ground arith

differs_n : (x y : ℕ) → x ≢ y → (x != y || (x == 0 || y == 0)) ≡ true
differs_n x y e = ground arith

-- Of two terminated strings `k_strcmp` reads no byte behind the terminators, and returns a number
-- that is 0, negative or positive as the first is equal to, before or after the second.
pub strcmp_lem :
    (s t r q : List ℕ) → IsText s → IsText t → Compared (strcmp (cstr s r) (cstr t q)) s t
unfolding strcmp
strcmp_lem [] [] r q hs ht = (pos 0, refl, same refl refl)
strcmp_lem [] (y ∷ t) r q hs ht = Compared-zero_left y t ht.0
strcmp_lem (x ∷ s) [] r q hs ht = rw (differs x 0 (omega arith)) (Compared-zero_right x s hs.0)
strcmp_lem (x ∷ s) (y ∷ t) r q hs ht = elim (ℕ_discrete x y) [
  | yes e ↦ rw (goes_on x y e hs.0) (Compared-cons _ x y s t e (strcmp_lem s t r q hs.1 ht.1))
  | no ne ↦ rw (differs x y ne) (Compared-head x y s t ne)
]

-- `k_strncmp` does the same with the first `n` characters of both.
pub strncmp_lem :
    (n : ℕ) (s t r q : List ℕ)
    → IsText s
    → IsText t
    → Compared (strncmp (cstr s r) (cstr t q) n) (take n s) (take n t)
unfolding strncmp
strncmp_lem zero s t r q hs ht = (pos 0, refl, same refl refl)
strncmp_lem (suc n) [] [] r q hs ht = (pos 0, refl, same refl refl)
strncmp_lem (suc n) [] (y ∷ t) r q hs ht =
    rw (differs_n 0 y (omega arith)) (Compared-zero_left y (take n t) ht.0)
strncmp_lem (suc n) (x ∷ s) [] r q hs ht =
    rw (differs_n x 0 (omega arith)) (Compared-zero_right x (take n s) hs.0)
strncmp_lem (suc n) (x ∷ s) (y ∷ t) r q hs ht = elim (ℕ_discrete x y) [
  | yes e ↦
      rw (goes_on_n x y e hs.0)
        (Compared-cons _ x y (take n s) (take n t) e (strncmp_lem n s t r q hs.1 ht.1))
  | no ne ↦ rw (differs_n x y ne) (Compared-head x y (take n s) (take n t) ne)
]
