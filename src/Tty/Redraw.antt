-- ===== src/Tty/Redraw.antt =====
-- A redraw of a terminal shows the last 4096 characters written to it.
use punix.Base.{
  ℕ, zero, suc, ◌+◌, ◌%◌, ◌≡◌, refl, ap, ap₂, ◌∙◌, arith, and_mask, List, [], ◌∷◌, ◌++◌, Bool,
}
use punix.FreeRing.{w32}
use punix.Tty.{Tty, output_bits, output_size, used, redraw_from, redraw, tty_init, write_output}
use punix.Tty.Ring.{contents}
use punix.Tty.Output.{IsOut, output, until_nul, LastOf, wrapped, write_output_lem}

redraw_from-contents :
    (tty : Tty) (i n : ℕ)
    → redraw_from tty i n ≡ contents output_size tty.out_buf (tty.out_tail + i) n
unfolding redraw_from
redraw_from-contents tty i zero = refl
redraw_from-contents tty i (suc n) =
    ap₂ (λ x l. tty.out_buf x ∷ l)
      (and_mask output_bits ((tty.out_tail + i) % w32) ∙ wrapped (tty.out_tail + i))
      (redraw_from-contents tty (i + 1) n
        ∙ ap (λ t. contents output_size tty.out_buf t n) (omega arith))

redraw_lem : (tty : Tty) → redraw tty ≡ output tty
redraw_lem tty =
    redraw_from-contents tty 0 (used tty.out_head tty.out_tail)
    ∙ ap (λ t. contents output_size tty.out_buf t (used tty.out_head tty.out_tail)) (omega arith)

-- A redraw shows nothing on a terminal that `tty_init` has set up, and after `tty_write` the last
-- 4096 characters of what it showed before with those written, up to a NUL, behind.
pub redraw-write_output :
    (shown : Bool) (tty : Tty) (text : List ℕ) (idx address : ℕ)
    → IsOut tty
    → LastOf (redraw tty ++ until_nul text) (redraw (write_output shown tty text).1)
      × IsOut (write_output shown tty text).1
      × (redraw (tty_init tty idx address) ≡ [])
      × IsOut (tty_init tty idx address)
redraw-write_output shown tty text idx address v =
    let (written, last, put, v') = write_output_lem shown tty text v in
    (
      rw (redraw_lem tty, redraw_lem (write_output shown tty text).1) last,
      v',
      redraw_lem (tty_init tty idx address),
      record { head_word = omega arith; tail_word = omega arith; fits = omega arith },
    )
