-- ===== src/Tty.antt =====
-- The rings of characters of a terminal, kernel/core/tty.c. Their indices run freely as 32-bit
-- size_t and are masked at each access.
pub mod Ring
pub mod Input
pub mod Output
pub mod Write
pub mod Redraw
mod Tests
use punix.Base.{
  ℕ, zero, suc, ◌+◌, ◌-◌, ◌%◌, ◌^◌, bit_and, List, [], ◌∷◌, Option, none, some, update, ltb, leb,
  ◌==◌, if◌then◌else◌, Bool, not,
}
use punix.Base.Int.{ℤ, pos, negsuc}
use punix.Buffer.{Buf, bytes}
use punix.Drivers.{OpenFile}
use punix.FreeRing.{w32}
use punix.Sched.{Sched}
use punix.Wait.{Waits, wakeup}

abbrev pub input_bits : ℕ
input_bits = 8

abbrev pub input_size : ℕ
input_size = 2 ^ input_bits

abbrev pub output_bits : ℕ
output_bits = 12

abbrev pub output_size : ℕ
output_size = 2 ^ output_bits

-- `struct tty` without the console; its wait queue is at an address of the store of Wait.
pub record Tty : Type 0 where
  pub idx : ℕ
  pub in_buf : ℕ → ℕ
  pub in_head : ℕ
  pub in_tail : ℕ
  pub out_buf : ℕ → ℕ
  pub out_head : ℕ
  pub out_tail : ℕ
  pub cursor_pos : ℕ
  pub in_wait_queue : ℕ

abbrev pub used : ℕ → ℕ → ℕ
used head tail = (head + w32 - tail) % w32

-- `tty_input_available`
abbrev pub input_available : Tty → Bool
input_available tty = not (used tty.in_head tty.in_tail == 0)

-- The character stored, before the wakeup.
abbrev pub store_input : Tty → ℕ → Tty
store_input tty c = record tty {
  in_buf = update tty.in_buf (bit_and tty.in_head (input_size - 1)) c;
  in_head = (tty.in_head + 1) % w32;
}

-- `tty_input_put` on a terminal that is not null; the fuel is that of `wakeup`.
pub input_put : ℕ → Tty → Waits → Sched → ℕ → Option (Tty × Waits × Sched)
input_put fuel tty w s c =
    if leb input_size (used tty.in_head tty.in_tail)
    then some (tty, w, s)
    else elim (wakeup fuel w s (some tty.in_wait_queue)) [
      | none ↦ none
      | some (w', s') ↦ some (store_input tty c, w', s')
    ]

-- The loop of `tty_read` that copies the characters, from the `i`-th on.
pub copy_input : Tty → ℕ → ℕ → List ℕ
copy_input tty i zero = []
copy_input tty i (suc left) =
    tty.in_buf (bit_and ((tty.in_tail + i) % w32) (input_size - 1)) ∷ copy_input tty (i + 1) left

abbrev pub available : Tty → ℕ → ℕ
available tty count =
    if ltb count (used tty.in_head tty.in_tail) then count else used tty.in_head tty.in_tail

-- `tty_read` after its wait for input.
pub read_input : Tty → ℕ → List ℕ × Tty
read_input tty count =
    let n = available tty count in
    (copy_input tty 0 n, record tty { in_tail = (tty.in_tail + n) % w32 })

-- One round of `tty_write`: the oldest character gives way when the ring is full.
abbrev pub store_output : Tty → ℕ → Tty
store_output tty c =
    let full = leb output_size (used tty.out_head tty.out_tail) in
    let next = (tty.out_head + 1) % w32 in
    record tty {
      out_tail = if full then (tty.out_tail + 1) % w32 else tty.out_tail;
      out_buf = update tty.out_buf (bit_and tty.out_head (output_size - 1)) c;
      out_head = next;
      cursor_pos = next;
    }

-- The loop of `tty_write` over the `count` characters of the buffer, up to a NUL. It returns the
-- characters written, and those put on the console if the terminal is `shown` there.
pub write_output : Bool → Tty → List ℕ → ℕ × Tty × List ℕ
write_output shown tty [] = (0, tty, [])
write_output shown tty (c ∷ cs) =
    let (written, tty', put) = write_output shown (store_output tty c) cs in
    if c == 0 then (0, tty, []) else (suc written, tty', if shown then c ∷ put else put)

-- `tty_write` from the test of the terminal on. `shown t` tells whether terminal `t` is the active
-- one and has a console. The result is the count or -1, the terminals, and what the console gets.
pub write_on : (ℕ → Bool) → (ℕ → Tty) → Option ℕ → List ℕ → ℤ × ((ℕ → Tty) × List ℕ)
write_on shown ttys none text = (negsuc 0, (ttys, []))
write_on shown ttys (some t) text =
    let (written, tty, put) = write_output (shown t) (ttys t) text in
    (pos written, (update ttys t tty, put))

-- `none` is a null pointer; `driver_data` of the file is the number of its terminal.
pub tty_write : (ℕ → Bool) → (ℕ → Tty) → Option OpenFile → Option Buf → ℕ → ℤ × ((ℕ → Tty) × List ℕ)
tty_write shown ttys none buf count = (negsuc 0, (ttys, []))
tty_write shown ttys (some file) none count = (negsuc 0, (ttys, []))
tty_write shown ttys (some file) (some buf) count =
    if count == 0
    then (negsuc 0, (ttys, []))
    else write_on shown ttys file.driver_data (bytes buf 0 count)

-- The loop of `tty_redraw`, from the `i`-th character on.
pub redraw_from : Tty → ℕ → ℕ → List ℕ
redraw_from tty i zero = []
redraw_from tty i (suc left) =
    tty.out_buf (bit_and ((tty.out_tail + i) % w32) (output_size - 1))
    ∷ redraw_from tty (i + 1) left

-- The characters that `tty_redraw` puts on the console after it has cleared it.
abbrev pub redraw : Tty → List ℕ
redraw tty = redraw_from tty 0 (used tty.out_head tty.out_tail)

-- `tty_init`: the buffers keep their contents, and the wait queue is at `address`.
abbrev pub tty_init : Tty → ℕ → ℕ → Tty
tty_init tty idx address = record tty {
  idx = idx;
  in_head = 0;
  in_tail = 0;
  out_head = 0;
  out_tail = 0;
  cursor_pos = 0;
  in_wait_queue = address;
}
