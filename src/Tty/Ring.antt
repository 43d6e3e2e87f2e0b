-- ===== src/Tty/Ring.antt =====
-- The characters in a ring, as a list.
use native.Mathlib.Nat.{mod-add-mod}
use punix.Base.{
  ℕ, zero, suc, ◌+◌, ◌%◌, ◌<◌, ◌≤◌, ◌≡◌, refl, sym, ap, ap₂, ◌∙◌, arith, List, [], ◌∷◌, ◌++◌,
  length, update, update_self, update_ne,
}
use punix.FreeRing.Queue.{place-ne}

-- The `n` characters of the ring from `t` on.
abbrev pub contents : ℕ → (ℕ → ℕ) → ℕ → ℕ → List ℕ
contents c buf t zero = []
contents c buf t (suc n) = buf (t % c) ∷ contents c buf (t + 1) n

pub contents-cong :
    (c : ℕ) (buf : ℕ → ℕ) (t t' n : ℕ) → t % c ≡ t' % c → contents c buf t n ≡ contents c buf t' n
contents-cong c buf t t' zero e = refl
contents-cong c buf t t' (suc n) e =
    ap₂ (λ i l. buf i ∷ l) e
      (contents-cong c buf (t + 1) (t' + 1) n
        (sym (mod-add-mod t c 1) ∙ ap (λ x. (x + 1) % c) e ∙ mod-add-mod t' c 1))

pub contents-snoc :
    (c : ℕ) (buf : ℕ → ℕ) (t n : ℕ)
    → contents c buf t (suc n) ≡ contents c buf t n ++ (buf ((t + n) % c) ∷ [])
contents-snoc c buf t zero = ap (λ i. buf (i % c) ∷ []) (omega arith)
contents-snoc c buf t (suc n) =
    ap (λ l. buf (t % c) ∷ l)
      (contents-snoc c buf (t + 1) n
        ∙ ap (λ i. contents c buf (t + 1) n ++ (buf (i % c) ∷ [])) (omega arith))

-- A store behind the characters.
pub contents-update :
    (c : ℕ) (buf : ℕ → ℕ) (t j k n v : ℕ)
    → j + n ≤ k
    → k < c
    → contents c (update buf ((t + k) % c) v) (t + j) n ≡ contents c buf (t + j) n
contents-update c buf t j k zero v low high = refl
contents-update c buf t j k (suc n) v low high =
    let e : t + j + 1 ≡ t + (j + 1) = omega arith in
    ap₂ (λ x l. x ∷ l)
      (update_ne buf ((t + k) % c) ((t + j) % c) v (place-ne c t j k (omega arith) high))
      (rw e (contents-update c buf t (j + 1) k n v (omega arith) high))

pub contents-append :
    (c : ℕ) (buf : ℕ → ℕ) (t m n : ℕ)
    → contents c buf t (m + n) ≡ contents c buf t m ++ contents c buf (t + m) n
contents-append c buf t zero n = ap₂ (contents c buf) (omega arith) (omega arith)
contents-append c buf t (suc m) n =
    let e : suc m + n ≡ suc (m + n) = omega arith in
    rw e (
      ap (λ l. buf (t % c) ∷ l)
        (contents-append c buf (t + 1) m n
          ∙ ap (λ i. contents c buf (t + 1) m ++ contents c buf i n) (omega arith)))

pub length-contents : (c : ℕ) (buf : ℕ → ℕ) (t n : ℕ) → length (contents c buf t n) ≡ n
length-contents c buf t zero = refl
length-contents c buf t (suc n) = ap suc (length-contents c buf (t + 1) n)

-- A character stored right behind the others.
pub contents-push :
    (c : ℕ) (buf : ℕ → ℕ) (t n v : ℕ)
    → n < c
    → contents c (update buf ((t + n) % c) v) t (suc n) ≡ contents c buf t n ++ (v ∷ [])
contents-push c buf t n v room =
    let place = (t + n) % c in
    let start : t + 0 ≡ t = omega arith in
    contents-snoc c (update buf place v) t n
    ∙ ap₂ (λ l x. l ++ (x ∷ []))
        (ap (λ i. contents c (update buf place v) i n) (sym start)
          ∙ contents-update c buf t 0 n n v (omega arith) room
          ∙ ap (λ i. contents c buf i n) start)
        (update_self buf place v)
