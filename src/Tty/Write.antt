-- ===== src/Tty/Write.antt =====
-- `tty_write` of kernel/core/tty.c on all its branches.
use punix.Base.{
  ℕ, ◌≡◌, ◌≢◌, ◌⊎◌, inl, inr, ◌++◌, refl, ap, subst, sym, Bool, Option, none, some, List, [],
  length, ℕ_discrete, ne→==, update_self, update_ne,
}
use punix.Base.Int.{ℤ, pos, negsuc}
use punix.Buffer.{Buf, bytes}
use punix.Drivers.{OpenFile}
use punix.Tty.{Tty, write_output, write_on, tty_write}
use punix.Tty.Output.{IsOut, output, LastOf, until_nul, Wrote, write_output_lem}

-- There is nothing to write, or no terminal to write to.
abbrev pub Idle : Option OpenFile → Option Buf → ℕ → Type 0
Idle none buf count = Unit
Idle (some file) none count = Unit
Idle (some file) (some buf) count = (count ≡ 0) ⊎ (file.driver_data ≡ none)

-- The text is written to terminal `t`, and no other terminal has changed.
abbrev pub WroteOn : (ℕ → Bool) → (ℕ → Tty) → ℕ → List ℕ → ℤ × ((ℕ → Tty) × List ℕ) → Type 0
WroteOn shown ttys t text (r, (ttys', put)) =
    (r ≡ pos (length text))
    × Wrote (shown t) (ttys t) text (length text, ttys' t, put)
    × ((i : ℕ) → i ≢ t → ttys' i ≡ ttys i)

-- The text, up to its first NUL, is written to the terminal of the file.
abbrev pub WroteFile :
    (ℕ → Bool) → (ℕ → Tty) → Option OpenFile → Option Buf → ℕ → ℤ × ((ℕ → Tty) × List ℕ) → Type 0
WroteFile shown ttys none buf count r = ⊥
WroteFile shown ttys (some file) none count r = ⊥
WroteFile shown ttys (some file) (some buf) count r =
    (t : ℕ) × (file.driver_data ≡ some t)
    × (count ≢ 0)
    × WroteOn shown ttys t (until_nul (bytes buf 0 count)) r

write_on_lem :
    (shown : ℕ → Bool) (ttys : ℕ → Tty) (t : ℕ) (text : List ℕ)
    → IsOut (ttys t)
    → WroteOn shown ttys t (until_nul text) (write_on shown ttys (some t) text)
unfolding write_on
write_on_lem shown ttys t text v =
    let out = write_output (shown t) (ttys t) text in
    let (written, last, put, v') = write_output_lem (shown t) (ttys t) text v in
    let same = update_self ttys t out.1 in
    (
      ap pos written,
      (
        refl,
        subst (λ x. LastOf (output (ttys t) ++ until_nul text) (output x)) (sym same) last,
        put,
        subst IsOut (sym same) v',
      ),
      λ i ne. update_ne ttys t i out.1 ne,
    )

by_terminal :
    (shown : ℕ → Bool) (ttys : ℕ → Tty) (file : OpenFile) (buf : Buf) (count : ℕ) (o : Option ℕ)
    → ((t : ℕ) → IsOut (ttys t))
    → count ≢ 0
    → file.driver_data ≡ o
    → let r = write_on shown ttys o (bytes buf 0 count) in
      (Idle (some file) (some buf) count × (r ≡ (negsuc 0, (ttys, []))))
      ⊎ WroteFile shown ttys (some file) (some buf) count r
unfolding write_on
by_terminal shown ttys file buf count none v some_n e = inl (inr e, refl)
by_terminal shown ttys file buf count (some t) v some_n e =
    inr (t, e, some_n, write_on_lem shown ttys t (bytes buf 0 count) (v t))

-- `tty_write` returns -1 and changes nothing if the file, its terminal or the buffer is null or the
-- count is 0. Else it takes the characters up to the first NUL, returns how many these are, and
-- leaves the last 4096 of all the characters written so far in the ring of the terminal; those of
-- this call go to the console if the terminal is shown, and no other terminal changes. The indices
-- of the rings are 32-bit words at most 4096 apart, and stay so.
pub tty_write_lem :
    (shown : ℕ → Bool) (ttys : ℕ → Tty) (file : Option OpenFile) (buf : Option Buf) (count : ℕ)
    → ((t : ℕ) → IsOut (ttys t))
    → let r = tty_write shown ttys file buf count in
      (Idle file buf count × (r ≡ (negsuc 0, (ttys, [])))) ⊎ WroteFile shown ttys file buf count r
unfolding tty_write
tty_write_lem shown ttys none buf count v = inl (tt, refl)
tty_write_lem shown ttys (some file) none count v = inl (tt, refl)
tty_write_lem shown ttys (some file) (some buf) count v = elim (ℕ_discrete count 0) [
  | yes e ↦ rw e (inl (inl refl, refl))
  | no some_n ↦
      rw (ne→== count 0 some_n)
        (by_terminal shown ttys file buf count file.driver_data v some_n refl)
]
