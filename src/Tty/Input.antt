-- ===== src/Tty/Input.antt =====
-- The input ring of a terminal is a queue of at most 256 characters.
use punix.Base.{
  ℕ, zero, suc, ◌+◌, ◌-◌, ◌%◌, ◌^◌, ◌<◌, ◌≤◌, ◌≡◌, refl, sym, ap, ap₂, ◌∙◌, arith, bit_and,
  and_mask, List, [], ◌∷◌, ◌++◌, some, length, update, leb, true, false, min,
}
use punix.FreeRing.{w32}
use punix.FreeRing.Queue.{wrap-mod}
use punix.Sched.{Sched}
use punix.Sched.Inv.{IsSched}
use punix.Wait.{Waits}
use punix.Wait.Linked.{IsWait}
use punix.Wait.Wakeup.{AllDetached, CanQueue, sleepers, task_of, sleeps_in, wakeup_lem}
use punix.Tty.{
  Tty, input_bits, input_size, used, store_input, input_put, copy_input, available, read_input,
}
use punix.Tty.Ring.{contents, contents-cong, contents-push, contents-append, length-contents}

pub record IsTty (tty : Tty) : Type 0 where
  pub head_word : tty.in_head < w32
  pub tail_word : tty.in_tail < w32
  pub fits : used tty.in_head tty.in_tail ≤ input_size

-- The characters typed that are not read yet.
abbrev pub input : Tty → List ℕ
input tty = contents input_size tty.in_buf tty.in_tail (used tty.in_head tty.in_tail)

wrapped : (x : ℕ) → x % w32 % input_size ≡ x % input_size
wrapped x = wrap-mod input_bits (2 ^ 24) refl (omega arith) x

head_place :
    (tty : Tty)
    → IsTty tty
    → bit_and tty.in_head (input_size - 1)
      ≡ (tty.in_tail + used tty.in_head tty.in_tail) % input_size
head_place tty v = and_mask input_bits tty.in_head ∙ omega (arith, v.head_word, v.tail_word)

store_input_lem :
    (tty : Tty) (c : ℕ)
    → IsTty tty
    → used tty.in_head tty.in_tail < input_size
    → IsTty (store_input tty c) × (input (store_input tty c) ≡ input tty ++ (c ∷ []))
store_input_lem tty c v room =
    let n = used tty.in_head tty.in_tail in
    let more : used ((tty.in_head + 1) % w32) tty.in_tail ≡ suc n =
      omega (arith, v.head_word, v.tail_word) in
    (
      record { head_word = omega arith; tail_word = v.tail_word; fits = omega (arith, more) },
      ap₂ (λ i m. contents input_size (update tty.in_buf i c) tty.in_tail m) (head_place tty v) more
          ∙ contents-push input_size tty.in_buf tty.in_tail n c room,
    )

-- `tty_input_put` appends the character to the input, and wakes the readers: it empties the wait
-- queue of the terminal, detaches its entries, and puts those of their tasks that sleep at the end
-- of the run queue, in the order of the entries. But if the input has 256 characters it drops the
-- character, and changes nothing. The fuel is more than the number of the entries, the tasks that
-- sleep are distinct, none of them is queued, the current one or the swapper, and the length of the
-- run queue does not overflow.
pub input_put_lem :
    (fuel : ℕ) (tty : Tty) (w : Waits) (s : Sched) (c sw : ℕ) (es l : List ℕ)
    → IsTty tty
    → length es < fuel
    → IsWait w tty.in_wait_queue es
    → IsSched s sw l
    → CanQueue s sw l (sleepers (task_of w) (sleeps_in s) es)
    → (length (input tty) < input_size
        → (tty' : Tty) × (w' : Waits) × (s' : Sched) × (input_put fuel tty w s c
            ≡ some (tty', w', s'))
          × IsTty tty'
          × (input tty' ≡ input tty ++ (c ∷ []))
          × IsWait w' tty.in_wait_queue []
          × AllDetached w'.entries es
          × IsSched s' sw (l ++ sleepers (task_of w) (sleeps_in s) es))
      × (length (input tty) ≡ input_size → input_put fuel tty w s c ≡ some (tty, w, s))
unfolding input_put
input_put_lem fuel tty w s c sw es l v enough waits sched can =
    let n = used tty.in_head tty.in_tail in
    let size : length (input tty) ≡ n = length-contents input_size tty.in_buf tty.in_tail n in
    let (w', s', woken, waits', detached, sched') =
      wakeup_lem fuel w s tty.in_wait_queue sw es l enough waits sched can in
    (
      λ h.
          let room : n < input_size = omega (arith, size) in
          let (v', appended) = store_input_lem tty c v room in
          let vacant : leb input_size n ≡ false = ground arith in
          let stored = store_input tty c in
          (stored, w', s', rw (vacant, woken) refl, v', appended, waits', detached, sched'),
      λ h. let full : leb input_size n ≡ true = ground (arith, h, size) in rw full refl,
    )

copy_input-contents :
    (tty : Tty) (i n : ℕ) → copy_input tty i n ≡ contents input_size tty.in_buf (tty.in_tail + i) n
unfolding copy_input
copy_input-contents tty i zero = refl
copy_input-contents tty i (suc n) =
    ap₂ (λ x l. tty.in_buf x ∷ l)
      (and_mask input_bits ((tty.in_tail + i) % w32) ∙ wrapped (tty.in_tail + i))
      (copy_input-contents tty (i + 1) n
        ∙ ap (λ t. contents input_size tty.in_buf t n) (omega arith))

available-min :
    (tty : Tty) (count : ℕ) → available tty count ≡ min count (used tty.in_head tty.in_tail)
available-min tty count = ground arith

-- `tty_read`, once there is input, returns as many of the oldest characters as it is asked for, or
-- all there are if these are fewer, and leaves the others in their order.
pub read_input_lem :
    (tty : Tty) (count : ℕ)
    → IsTty tty
    → let r = read_input tty count in
      (input tty ≡ r.0 ++ input r.1) × (length r.0 ≡ min count (length (input tty))) × IsTty r.1
unfolding read_input
read_input_lem tty count v =
    let n = available tty count in
    let u = used tty.in_head tty.in_tail in
    let small : n ≤ u = omega (arith, available-min tty count) in
    let left : used tty.in_head ((tty.in_tail + n) % w32) ≡ u - n =
      omega (arith, v.head_word, v.tail_word) in
    let sum : u ≡ n + (u - n) = omega arith in
    let start : tty.in_tail + 0 ≡ tty.in_tail = omega arith in
    let copied : copy_input tty 0 n ≡ contents input_size tty.in_buf tty.in_tail n =
      copy_input-contents tty 0 n ∙ ap (λ t. contents input_size tty.in_buf t n) start in
    (
      ap (contents input_size tty.in_buf tty.in_tail) sum
          ∙ contents-append input_size tty.in_buf tty.in_tail n (u - n)
          ∙ ap₂ (λ l k. l ++ k) (sym copied)
              (contents-cong input_size tty.in_buf (tty.in_tail + n) ((tty.in_tail + n) % w32)
                  (u - n) (sym (wrapped (tty.in_tail + n)))
                ∙ ap (contents input_size tty.in_buf ((tty.in_tail + n) % w32)) (sym left)),
      ap length copied
          ∙ length-contents input_size tty.in_buf tty.in_tail n
          ∙ available-min tty count
          ∙ ap (min count) (sym (length-contents input_size tty.in_buf tty.in_tail u)),
      record {
        head_word = v.head_word;
        tail_word = omega arith;
        fits = omega (arith, v.fits, left);
      },
    )
