-- ===== src/Buffer.antt =====
-- Character buffers that are written in place, as functions from the index. The calls of the string
-- functions on a part of a buffer read it with `bytes` and write it back with `store`.
use punix.Base.{
  ℕ, zero, suc, ◌+◌, ◌≤◌, ◌<◌, ◌≡◌, refl, ◌∙◌, ap, ap₂, arith, List, [], ◌∷◌, ◌++◌, length, update,
  update_self, update_ne,
}

abbrev pub Buf : Type 0
Buf = ℕ → ℕ

-- The `n` characters from `i` on.
abbrev pub bytes : Buf → ℕ → ℕ → List ℕ
bytes p i zero = []
bytes p i (suc n) = p i ∷ bytes p (i + 1) n

abbrev pub store : Buf → ℕ → List ℕ → Buf
store p i [] = p
store p i (c ∷ cs) = store (update p i c) (i + 1) cs

-- `k_memcpy` within one buffer, in its order from the first character to the last.
abbrev pub copy : ℕ → Buf → ℕ → ℕ → Buf
copy zero p d s = p
copy (suc n) p d s = copy n (update p d (p s)) (d + 1) (s + 1)

-- The text stands in the buffer from `i` on.
abbrev pub Reads : Buf → ℕ → List ℕ → Type 0
Reads p i [] = Unit
Reads p i (c ∷ t) = (p i ≡ c) × Reads p (i + 1) t

-- The same with the terminator behind it.
abbrev pub Holds : Buf → ℕ → List ℕ → Type 0
Holds p i t = Reads p i t × (p (i + length t) ≡ 0)

-- The buffers agree from `i` on, and below `i`.
abbrev pub AgreeFrom : ℕ → Buf → Buf → Type 0
AgreeFrom i p p' = (j : ℕ) → i ≤ j → p' j ≡ p j

abbrev pub AgreeBelow : ℕ → Buf → Buf → Type 0
AgreeBelow i p p' = (j : ℕ) → j < i → p' j ≡ p j

pub Reads-bytes : (p : Buf) (i n : ℕ) → Reads p i (bytes p i n)
Reads-bytes p i zero = tt
Reads-bytes p i (suc n) = (refl, Reads-bytes p (i + 1) n)

pub bytes-Reads : (p : Buf) (i : ℕ) (t : List ℕ) → Reads p i t → bytes p i (length t) ≡ t
bytes-Reads p i [] r = refl
bytes-Reads p i (c ∷ t) r = ap₂ (λ x l. x ∷ l) r.0 (bytes-Reads p (i + 1) t r.1)

pub length-bytes : (p : Buf) (i n : ℕ) → length (bytes p i n) ≡ n
length-bytes p i zero = refl
length-bytes p i (suc n) = ap suc (length-bytes p (i + 1) n)

pub Reads-cong :
    (p p' : Buf) (i : ℕ) (t : List ℕ)
    → ((j : ℕ) → i ≤ j → j < i + length t → p' j ≡ p j)
    → Reads p i t
    → Reads p' i t
Reads-cong p p' i [] same r = tt
Reads-cong p p' i (c ∷ t) same r = (
  same i (omega arith) (omega arith) ∙ r.0,
  Reads-cong p p' (i + 1) t (λ j low high. same j (omega arith) (omega arith)) r.1,
)

pub bytes-cong :
    (p p' : Buf) (i n : ℕ) → ((j : ℕ) → i ≤ j → j < i + n → p' j ≡ p j) → bytes p' i n ≡ bytes p i n
bytes-cong p p' i zero same = refl
bytes-cong p p' i (suc n) same =
    ap₂ (λ x l. x ∷ l) (same i (omega arith) (omega arith))
      (bytes-cong p p' (i + 1) n (λ j low high. same j (omega arith) (omega arith)))

pub Reads-append :
    (p : Buf) (i : ℕ) (s t : List ℕ) → Reads p i s → Reads p (i + length s) t → Reads p i (s ++ t)
Reads-append p i [] t r q = let e : i + 0 ≡ i = omega arith in rw e at q
Reads-append p i (c ∷ s) t r q =
    let e : i + suc (length s) ≡ i + 1 + length s = omega arith in
    (r.0, Reads-append p (i + 1) s t r.1 (rw e at q))

pub store_below : (p : Buf) (i : ℕ) (t : List ℕ) → AgreeBelow i p (store p i t)
store_below p i [] j h = refl
store_below p i (c ∷ t) j h =
    store_below (update p i c) (i + 1) t j (omega arith) ∙ update_ne p i j c (omega arith)

pub store_from : (p : Buf) (i : ℕ) (t : List ℕ) → AgreeFrom (i + length t) p (store p i t)
store_from p i [] j h = refl
store_from p i (c ∷ t) j h =
    store_from (update p i c) (i + 1) t j (omega arith) ∙ update_ne p i j c (omega arith)

pub Reads-store : (p : Buf) (i : ℕ) (t : List ℕ) → Reads (store p i t) i t
Reads-store p i [] = tt
Reads-store p i (c ∷ t) = (
  store_below (update p i c) (i + 1) t i (omega arith) ∙ update_self p i c,
  Reads-store (update p i c) (i + 1) t,
)

-- Copying towards the front keeps what is in front and behind, and reads what was there.
pub copy_below : (n : ℕ) (p : Buf) (d s : ℕ) → AgreeBelow d p (copy n p d s)
copy_below zero p d s j h = refl
copy_below (suc n) p d s j h =
    copy_below n (update p d (p s)) (d + 1) (s + 1) j (omega arith)
    ∙ update_ne p d j _ (omega arith)

pub copy_from : (n : ℕ) (p : Buf) (d s : ℕ) → AgreeFrom (d + n) p (copy n p d s)
copy_from zero p d s j h = refl
copy_from (suc n) p d s j h =
    copy_from n (update p d (p s)) (d + 1) (s + 1) j (omega arith) ∙ update_ne p d j _ (omega arith)

pub Reads-copy : (n : ℕ) (p : Buf) (d s : ℕ) → d ≤ s → Reads (copy n p d s) d (bytes p s n)
Reads-copy zero p d s h = tt
Reads-copy (suc n) p d s h =
    let p1 = update p d (p s) in
    let same : bytes p1 (s + 1) n ≡ bytes p (s + 1) n =
      bytes-cong p p1 (s + 1) n (λ j low high. update_ne p d j _ (omega arith)) in
    (
      copy_below n p1 (d + 1) (s + 1) d (omega arith) ∙ update_self p d (p s),
      rw (← same) (Reads-copy n p1 (d + 1) (s + 1) (omega arith)),
    )
