-- ===== src/Bins/Reading.antt =====
-- `bin_read` reads a program from the position of the file on.
use punix.Base.{
  ℕ, ◌+◌, ◌-◌, ◌≤◌, ◌≡◌, refl, sym, ap, subst, ◌∙◌, arith, true, false, Option, some, List, ◌++◌,
  length, length-append, take, drop, length-drop, get_elem?, leb, ltb, if◌then◌else◌, if-true,
  if-false, ◌>>=◌, min, dec_lt,
}
use punix.Base.Int.{ℤ, pos}
use punix.Buffer.{Buf, bytes, store, Reads, Reads-store, store_from, length-bytes, AgreeFrom}
use punix.Drivers.{OpenFile}
use punix.Drivers.Entries.{length-take}
use punix.Kutils.Strings.{memcpy}
use punix.Kutils.Strings.Copies.{memcpy_lem}
use punix.Paths.Join.{Reads-left}
use punix.Bins.{EmbeddedBin, read_bin, read_data, bin_read}

-- `n` bytes of the program are read, from the position on.
abbrev pub ReadBin : EmbeddedBin → OpenFile → Buf → ℕ → Option (ℤ × (OpenFile × Buf)) → Type 0
ReadBin bin file buf n r =
    (buf' : Buf) × (r ≡ some (pos n, (record file { offset = file.offset + n }, buf')))
    × Reads buf' 0 (take n (drop file.offset bin.image))
    × AgreeFrom n buf buf'

at_end :
    (bin : EmbeddedBin) (file : OpenFile) (buf : Buf)
    → ReadBin bin file buf 0 (some (pos 0, (file, buf)))
at_end bin file buf =
    let e : file.offset ≡ file.offset + 0 = omega arith in
    (buf, ap (λ o. some (pos 0, (record file { offset = o }, buf))) e, tt, λ j h. refl)

-- What follows the choice of the number of bytes.
copied :
    (bin : EmbeddedBin) (file : OpenFile) (buf : Buf) (n : ℕ)
    → n ≤ length (drop file.offset bin.image)
    → ReadBin bin file buf n (
        memcpy (bytes buf 0 n) (drop file.offset bin.image) n
        >>= (λ out. some (pos n, (record file { offset = file.offset + n }, store buf 0 out))))
copied bin file buf n within =
    let src = drop file.offset bin.image in
    let dest = bytes buf 0 n in
    let size = length-bytes buf 0 n in
    let out = take n src ++ drop n dest in
    let len : length out ≡ n =
      length-append (take n src) (drop n dest)
      ∙ omega (arith, length-take n src within, length-drop n dest, size) in
    (
      store buf 0 out,
      ap
          (λ o.
            o
            >>= (λ new. some (pos n, (record file { offset = file.offset + n }, store buf 0 new))))
          (memcpy_lem n dest src (omega (arith, size)) within),
      Reads-left (store buf 0 out) 0 (take n src) (drop n dest) (Reads-store buf 0 out),
      λ j h. store_from buf 0 out j (omega (arith, len)),
    )

read_bin_lem :
    (bin : EmbeddedBin) (file : OpenFile) (buf : Buf) (count : ℕ)
    → ReadBin bin file buf
        (min count (length bin.image - file.offset))
        (read_bin bin file buf count)
read_bin_lem bin file buf count =
    let size = length bin.image in
    let left = size - file.offset in
    let n = min count left in
    elim (dec_lt file.offset size) [
      | no behind ↦
          let all : leb size file.offset ≡ true = ground arith in
          let none_left : 0 ≡ n = omega arith in
          subst (ReadBin bin file buf n) (sym (if-true (leb size file.offset) _ _ all)) (
            subst (λ m. ReadBin bin file buf m (some (pos 0, (file, buf)))) none_left
              (at_end bin file buf))
      | yes before ↦
          let more : leb size file.offset ≡ false = ground arith in
          let chosen : (if ltb count left then count else left) ≡ n = ground arith in
          subst (ReadBin bin file buf n)
            (sym (
              if-false (leb size file.offset) _ _ more
              ∙ ap
                  (λ m. memcpy (bytes buf 0 m) (drop file.offset bin.image) m >>= (λ out.
                    some (pos m, (record file { offset = file.offset + m }, store buf 0 out))))
                  chosen))
            (copied bin file buf n (omega (arith, length-drop file.offset bin.image)))
    ]

-- `bin_read` on a file of a program copies the bytes from the position on, as many as are asked for or
-- all that are left, returns their number, which is 0 from the end on, moves the position by it, and
-- writes no more than that into the buffer.
pub bin_read_lem :
    (bins : List EmbeddedBin) (i : ℕ) (bin : EmbeddedBin) (file : OpenFile) (buf : Buf) (count : ℕ)
    → file.driver_data ≡ some i
    → get_elem? bins i ≡ some bin
    → ReadBin bin file buf
        (min count (length bin.image - file.offset))
        (bin_read bins file buf count)
unfolding bin_read
bin_read_lem bins i bin file buf count own found =
    subst (ReadBin bin file buf (min count (length bin.image - file.offset)))
      (sym (
        ap (λ o. read_data bins o file buf count) own
        ∙ ap (λ o. o >>= (λ b. read_bin b file buf count)) found))
      (read_bin_lem bin file buf count)
