-- ===== src/FreeRing/Queue.antt =====
-- A ring of free indices is a queue: `take` removes the entry at the front, `give` appends one.
use native.Mathlib.Nat.{mod-add-mod, mod-lt, mod-eq_of_lt, mod-eq-sub-mod}
use native.Mathlib.Nat.{add-mul-mod_self_right, mod-add-div', mul_assoc, add-zero}
use punix.Base.{
  update, ℕ, suc, ◌+◌, ◌-◌, ◌*◌, ◌/◌, ◌%◌, ◌^◌, ◌≤◌, ◌<◌, ◌≡◌, refl, ◌≢◌, Option, none, some, arith,
  bit_and, and_mask, sym, ap, ◌∙◌, dec_lt, ne→==, eq→==,
}
use punix.FreeRing.{w32, FreeRing, take, give}

-- The number of free indices, and the `k`-th of them from the front.
abbrev pub count : FreeRing → ℕ
count r = (r.tail + w32 - r.head) % w32

abbrev pub entry : ℕ → FreeRing → ℕ → ℕ
entry b r k = r.slots ((r.head + k) % 2 ^ b)

pub record IsRing (b : ℕ) (r : FreeRing) : Type 0 where
  pub head_word : r.head < w32
  pub tail_word : r.tail < w32
  pub fits : count r ≤ 2 ^ b

-- Fewer than `c` steps round an array of `c` elements do not come back.
add-mod-ne : (c a d : ℕ) → a < c → 0 < d → d < c → (a + d) % c ≢ a
add-mod-ne c a d ha hd hc = elim (dec_lt (a + d) c) [
  | yes p ↦ omega (arith, mod-eq_of_lt p)
  | no p ↦ omega (
    arith,
    mod-eq-sub-mod {n = a + d} {m = c} (omega arith),
    mod-eq_of_lt {n = a + d - c} {m = c} (omega arith),
  )
]

-- Different places of a queue that fits are different elements of the array.
pub place-ne : (c h j k : ℕ) → j < k → k < c → (h + j) % c ≢ (h + k) % c
place-ne c h j k jk kc e =
    let same : h + j + (k - j) ≡ h + k = omega arith in
    add-mod-ne c ((h + j) % c) (k - j) (mod-lt (h + j) (omega arith)) (omega arith) (omega arith)
      (mod-add-mod (h + j) c (k - j) ∙ ap (λ x. x % c) same ∙ sym e)

place_eq : (c h j k : ℕ) → j < c → k < c → (h + j) % c ≡ (h + k) % c → j ≡ k
place_eq c h j k hj hk e = elim (dec_lt j k) [
  | yes p ↦ absurd (place-ne c h j k p hk e)
  | no p ↦ elim (dec_lt k j) [ yes q ↦ absurd (place-ne c h k j q hj (sym e)) | no q ↦ omega arith ]
]

-- `2 ^ b` divides the range of the counters, so masking a wrapped counter is harmless.
module _ (b m : ℕ) (divides : w32 ≡ m * 2 ^ b) (small : 2 ^ b < w32) where
  pub wrap-mod : (x : ℕ) → x % w32 % 2 ^ b ≡ x % 2 ^ b
  wrap-mod x =
      sym (add-mul-mod_self_right (x % w32) (x / w32 * m) (2 ^ b))
      ∙ ap (λ y. y % 2 ^ b)
          (ap (λ y. x % w32 + y)
              (mul_assoc (x / w32) m (2 ^ b) ∙ ap (λ y. x / w32 * y) (sym divides))
            ∙ mod-add-div' x w32)

  tail_place : (r : FreeRing) → IsRing b r → r.tail % 2 ^ b ≡ (r.head + count r) % 2 ^ b
  tail_place r v = ap (λ y. y % 2 ^ b) back ∙ wrap-mod (r.head + count r)
    where
      back : r.tail ≡ (r.head + count r) % w32
      back = omega (arith, v.head_word, v.tail_word)

  -- The queue after its front is gone.
  head_place : (h k : ℕ) → ((h + 1) % w32 + k) % 2 ^ b ≡ (h + suc k) % 2 ^ b
  head_place h k =
      sym (mod-add-mod ((h + 1) % w32) (2 ^ b) k)
      ∙ ap (λ y. (y + k) % 2 ^ b) (wrap-mod (h + 1))
      ∙ mod-add-mod (h + 1) (2 ^ b) k
      ∙ ap (λ y. y % 2 ^ b) (omega arith)

  module _ (r : FreeRing) (v : IsRing b r) where
    -- `take` fails exactly on an empty ring; otherwise it returns the front and leaves the rest.
    pub take_lem :
        (count r ≡ 0 → take b r ≡ none)
        × (0 < count r
            → (r' : FreeRing) × (take b r ≡ some (entry b r 0, r'))
              × IsRing b r'
              × (suc (count r') ≡ count r)
              × ((k : ℕ) → entry b r' k ≡ entry b r (suc k)))
    unfolding take
    take_lem = (
      λ e. rw (eq→== r.head r.tail (omega (arith, v.head_word, v.tail_word))) refl,
      λ h. (
        record r { head = (r.head + 1) % w32 },
        rw (ne→== r.head r.tail (omega arith), and_mask b r.head) front,
        record {
          head_word = omega arith;
          tail_word = v.tail_word;
          fits = omega (arith, v.fits, v.head_word, v.tail_word);
        },
        omega (arith, v.head_word, v.tail_word),
        λ k. ap r.slots (head_place r.head k),
      ),
    )
      where
        front :
            ◌≡◌ {A = Option (ℕ × FreeRing)}
              (some (r.slots (r.head % 2 ^ b), record r { head = (r.head + 1) % w32 }))
              (some (r.slots ((r.head + 0) % 2 ^ b), record r { head = (r.head + 1) % w32 }))
        front =
            ap (λ x. some (r.slots (x % 2 ^ b), record r { head = (r.head + 1) % w32 }))
              (sym (add-zero r.head))

    -- `give` panics exactly on a ring that is full; otherwise it appends the index.
    pub give_lem :
        (i : ℕ)
        → (count r ≡ 2 ^ b → give b r i ≡ none)
          × (count r < 2 ^ b
              → (r' : FreeRing) × (give b r i ≡ some r')
                × IsRing b r'
                × (count r' ≡ suc (count r))
                × (entry b r' (count r) ≡ i)
                × ((k : ℕ) → k < count r → entry b r' k ≡ entry b r k))
    unfolding give update
    give_lem i = (
      λ e. rw (eq→== (count r) (2 ^ b) e) refl,
      λ h. (
        record r {
          slots = update r.slots (bit_and r.tail (2 ^ b - 1)) i;
          tail = (r.tail + 1) % w32;
        },
        rw (ne→== (count r) (2 ^ b) (omega arith)) refl,
        record {
          head_word = v.head_word;
          tail_word = omega arith;
          fits = omega (arith, v.fits, v.head_word, v.tail_word);
        },
        omega (arith, v.head_word, v.tail_word),
        rw (and_mask b r.tail, eq→== _ _ (sym (tail_place r v))) refl,
        λ k p.
            rw
              (
                and_mask b r.tail,
                ne→== _ _ (λ e. place-ne (2 ^ b) r.head k (count r) p h (e ∙ tail_place r v)),
              )
              refl,
      ),
    )
