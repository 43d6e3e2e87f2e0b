-- ===== src/Tty/Output.antt =====
-- The output ring of a terminal holds the last 4096 characters written.
use punix.Base.{
  ℕ, suc, ◌+◌, ◌-◌, ◌%◌, ◌^◌, ◌<◌, ◌≤◌, ◌≡◌, refl, sym, ap, ap₂, ◌∙◌, arith, bit_and, and_mask,
  List, [], ◌∷◌, ◌++◌, append_assoc, append-nil, length, length-append, update, leb, Bool, true,
  false, if◌then◌else◌, dec_lt, min, ◌==◌, ℕ_discrete, eq→==, ne→==,
}
use punix.FreeRing.{w32}
use punix.FreeRing.Queue.{wrap-mod}
use punix.Tty.{Tty, output_bits, output_size, used, store_output, write_output}
use punix.Tty.Ring.{contents, contents-cong, contents-push, length-contents}

pub record IsOut (tty : Tty) : Type 0 where
  pub head_word : tty.out_head < w32
  pub tail_word : tty.out_tail < w32
  pub fits : used tty.out_head tty.out_tail ≤ output_size

-- The characters that a redraw shows.
abbrev pub output : Tty → List ℕ
output tty = contents output_size tty.out_buf tty.out_tail (used tty.out_head tty.out_tail)

-- The characters before the first NUL.
abbrev pub until_nul : List ℕ → List ℕ
until_nul [] = []
until_nul (c ∷ cs) = if c == 0 then [] else c ∷ until_nul cs

-- `l` is what is left of `all` when it is cut to its last 4096 characters.
abbrev pub LastOf : List ℕ → List ℕ → Type 0
LastOf all l = (gone : List ℕ) × (all ≡ gone ++ l) × (length l ≡ min output_size (length all))

pub wrapped : (x : ℕ) → x % w32 % output_size ≡ x % output_size
wrapped x = wrap-mod output_bits (2 ^ 20) refl (omega arith) x

head_place :
    (tty : Tty)
    → IsOut tty
    → bit_and tty.out_head (output_size - 1)
      ≡ (tty.out_tail + used tty.out_head tty.out_tail) % output_size
head_place tty v = and_mask output_bits tty.out_head ∙ omega (arith, v.head_word, v.tail_word)

store_output-room :
    (tty : Tty) (c : ℕ)
    → IsOut tty
    → used tty.out_head tty.out_tail < output_size
    → IsOut (store_output tty c) × (output (store_output tty c) ≡ output tty ++ (c ∷ []))
store_output-room tty c v room =
    let n = used tty.out_head tty.out_tail in
    let vacant : leb output_size n ≡ false = ground arith in
    let more : used ((tty.out_head + 1) % w32) tty.out_tail ≡ suc n =
      omega (arith, v.head_word, v.tail_word) in
    rw vacant (
      record { head_word = omega arith; tail_word = v.tail_word; fits = omega (arith, more) },
      ap₂ (λ i m. contents output_size (update tty.out_buf i c) tty.out_tail m) (head_place tty v)
            more
          ∙ contents-push output_size tty.out_buf tty.out_tail n c room,
    )

-- The oldest of `suc n` characters gives way; `n` is one less than the size of the ring.
store_output-full :
    (tty : Tty) (c n : ℕ)
    → IsOut tty
    → suc n ≡ output_size
    → used tty.out_head tty.out_tail ≡ suc n
    → IsOut (store_output tty c)
      × (output tty ++ (c ∷ [])
          ≡ tty.out_buf (tty.out_tail % output_size) ∷ output (store_output tty c))
store_output-full tty c n v size e =
    let t = tty.out_tail in
    let full : leb output_size (used tty.out_head t) ≡ true = ground (arith, e, size) in
    let same : used ((tty.out_head + 1) % w32) ((t + 1) % w32) ≡ suc n =
      omega (arith, v.head_word, v.tail_word) in
    let place : bit_and tty.out_head (output_size - 1) ≡ (t + 1 + n) % output_size =
      head_place tty v ∙ ap (λ i. i % output_size) (omega (arith, e)) in
    rw full (
      record { head_word = omega arith; tail_word = omega arith; fits = omega (arith, same, size) },
      ap (λ m. contents output_size tty.out_buf t m ++ (c ∷ [])) e
          ∙ ap (λ l. tty.out_buf (t % output_size) ∷ l)
              (sym (contents-push output_size tty.out_buf (t + 1) n c (omega (arith, size)))
                ∙ contents-cong output_size (update tty.out_buf ((t + 1 + n) % output_size) c)
                    (t + 1) ((t + 1) % w32) (suc n) (sym (wrapped (t + 1)))
                ∙ ap₂ (λ i m. contents output_size (update tty.out_buf i c) ((t + 1) % w32) m)
                    (sym place) (sym same)),
    )

store_output_lem :
    (tty : Tty) (c : ℕ)
    → IsOut tty
    → IsOut (store_output tty c) × LastOf (output tty ++ (c ∷ [])) (output (store_output tty c))
store_output_lem tty c v =
    let u = used tty.out_head tty.out_tail in
    let size : length (output tty) ≡ u = length-contents output_size tty.out_buf tty.out_tail u in
    elim (dec_lt u output_size) [
      | yes room ↦
          let (v', e) = store_output-room tty c v room in
          (v', ([], sym e, ap length e ∙ omega (arith, size, length-append (output tty) (c ∷ []))))
      | no full ↦
          let (v', e) =
            store_output-full tty c (u - 1) v (omega (arith, v.fits)) (omega (arith, v.fits)) in
          (
            v',
            (
              tty.out_buf (tty.out_tail % output_size) ∷ [],
              e,
              omega (arith, ap length e, size, v.fits, length-append (output tty) (c ∷ [])),
            ),
          )
    ]

LastOf-trans : (a b c cs : List ℕ) → LastOf a b → LastOf (b ++ cs) c → LastOf (a ++ cs) c
LastOf-trans a b c cs (gone, e, size) (gone', e', size') = (
  gone ++ gone',
  ap (λ l. l ++ cs) e
      ∙ append_assoc gone b cs
      ∙ ap (λ l. gone ++ l) e'
      ∙ sym (append_assoc gone gone' c),
  omega (arith, size, size', length-append b cs, length-append a cs),
)

-- What the loop has done with `text`, up to its first NUL.
abbrev pub Wrote : Bool → Tty → List ℕ → ℕ × Tty × List ℕ → Type 0
Wrote shown tty text (written, tty', put) =
    (written ≡ length text)
    × LastOf (output tty ++ text) (output tty')
    × (put ≡ (if shown then text else []))
    × IsOut tty'

Wrote-nothing : (shown : Bool) (tty : Tty) → IsOut tty → Wrote shown tty [] (0, tty, [])
Wrote-nothing shown tty v =
    let u = used tty.out_head tty.out_tail in
    (
      refl,
      (
        [],
        append-nil (output tty),
        ap length (sym (append-nil (output tty)))
            ∙ omega (
              arith,
              v.fits,
              length-contents output_size tty.out_buf tty.out_tail u,
              ap length (append-nil (output tty)),
            ),
      ),
      same shown,
      v,
    )
  where
    same : (b : Bool) → ◌≡◌ {A = List ℕ} [] (if b then [] else [])
    same true = refl
    same false = refl

-- `tty_write` takes the characters up to the first NUL, returns how many these are, and leaves the
-- last 4096 of all the characters written so far in the ring; those of this call go to the console
-- if the terminal is shown.
pub write_output_lem :
    (shown : Bool) (tty : Tty) (text : List ℕ)
    → IsOut tty
    → Wrote shown tty (until_nul text) (write_output shown tty text)
unfolding write_output
write_output_lem shown tty [] v = Wrote-nothing shown tty v
write_output_lem shown tty (c ∷ cs) v = elim (ℕ_discrete c 0) [
  | yes e ↦ rw (eq→== c 0 e) (Wrote-nothing shown tty v)
  | no ne ↦
      let (v', first) = store_output_lem tty c v in
      let (written, last, put, v2) = write_output_lem shown (store_output tty c) cs v' in
      let joined = append_assoc (output tty) (c ∷ []) (until_nul cs) in
      let stored = output (store_output tty c) in
      rw (ne→== c 0 ne) (
        ap suc written,
        rw (← joined) (LastOf-trans (output tty ++ (c ∷ [])) stored _ (until_nul cs) first last),
        both _ (until_nul cs) shown put,
        v2,
      )
]
  where
    both :
        (put text : List ℕ) (b : Bool)
        → put ≡ (if b then text else [])
        → (if b then c ∷ put else put) ≡ (if b then c ∷ text else [])
    both put text true e = ap (λ l. c ∷ l) e
    both put text false e = e
