-- ===== src/Elf/Segments.antt =====
-- One segment in memory, as kernel/core/elf_loader.c puts it there.
use punix.Base.{
  ℕ, ◌+◌, ◌-◌, ◌%◌, ◌<◌, ◌≤◌, ◌≡◌, ◌⊎◌, inl, inr, sym, ap, subst, ◌∙◌, arith, List, replicate,
  length, length-replicate, true, false, Bool-cases, ltb, ltb→lt, if-true, if-false, max,
}
use punix.Buffer.{
  Buf, bytes, store, Reads, Reads-store, Reads-cong, store_below, store_from, length-bytes,
}
use punix.Elf.{word, ProgramHeader, load_segment}

-- The bytes that the segment takes in memory.
abbrev pub extent : ProgramHeader → ℕ
extent p = max p.filesz p.memsz

abbrev pub Outside : ProgramHeader → ℕ → Type 0
Outside p j = (j < p.vaddr) ⊎ (p.vaddr + extent p ≤ j)

-- The segment is in memory: its bytes of the file, and zeros up to its size in memory.
abbrev pub InMemory : Buf → Buf → ProgramHeader → Type 0
InMemory image mem p =
    Reads mem p.vaddr (bytes image p.offset p.filesz)
    × Reads mem (p.vaddr + p.filesz) (replicate (p.memsz - p.filesz) 0)

pub InMemory-cong :
    (image mem mem' : Buf) (p : ProgramHeader)
    → ((j : ℕ) → p.vaddr ≤ j → j < p.vaddr + extent p → mem' j ≡ mem j)
    → InMemory image mem p
    → InMemory image mem' p
InMemory-cong image mem mem' p same r = (
  Reads-cong mem mem' p.vaddr (bytes image p.offset p.filesz)
      (λ j low high. same j low (omega (arith, high, length-bytes image p.offset p.filesz))) r.0,
  Reads-cong mem mem' (p.vaddr + p.filesz) (replicate (p.memsz - p.filesz) 0)
      (λ j low high.
        same j (omega (arith, low))
          (omega (arith, high, length-replicate {A = ℕ} (p.memsz - p.filesz) 0)))
      r.1,
)

module _ (image mem : Buf) (p : ProgramHeader) (fits : p.vaddr + extent p < word) where
  abbrev text : List ℕ
  text = bytes image p.offset p.filesz

  abbrev zeros : List ℕ
  zeros = replicate (p.memsz - p.filesz) 0

  abbrev copied : Buf
  copied = store mem p.vaddr text

  ends : length text ≡ p.filesz
  ends = length-bytes image p.offset p.filesz

  at_zeros : (p.vaddr + p.filesz) % word ≡ p.vaddr + p.filesz
  at_zeros = omega (arith, fits)

  with_zeros :
      ltb p.filesz p.memsz ≡ true
      → load_segment image mem p ≡ store copied (p.vaddr + p.filesz) zeros
  unfolding load_segment
  with_zeros t = if-true _ _ _ t ∙ ap (λ a. store copied a zeros) at_zeros

  without : ltb p.filesz p.memsz ≡ false → load_segment image mem p ≡ copied
  unfolding load_segment
  without f = if-false _ _ _ f

  no_zeros : ltb p.filesz p.memsz ≡ false → p.memsz - p.filesz ≡ 0
  no_zeros f = ground arith

  pub load_segment-Outside : (j : ℕ) → Outside p j → load_segment image mem p j ≡ mem j
  load_segment-Outside j o =
      let copy_out : copied j ≡ mem j = elim o [
        | inl h ↦ store_below mem p.vaddr text j h
        | inr h ↦ store_from mem p.vaddr text j (omega (arith, h, ends))
      ] in
      elim (Bool-cases (ltb p.filesz p.memsz)) [
        | inl t ↦
            ap (λ (b : Buf). b j) (with_zeros t)
            ∙ elim o [
              | inl h ↦ store_below copied (p.vaddr + p.filesz) zeros j (omega (arith, h))
              | inr h ↦ store_from copied (p.vaddr + p.filesz) zeros j (
                  omega (
                    arith,
                    h,
                    length-replicate {A = ℕ} (p.memsz - p.filesz) 0,
                    ltb→lt p.filesz p.memsz t,
                  ))
            ]
            ∙ copy_out
        | inr f ↦ ap (λ (b : Buf). b j) (without f) ∙ copy_out
      ]

  pub load_segment-InMemory : InMemory image (load_segment image mem p) p
  load_segment-InMemory = elim (Bool-cases (ltb p.filesz p.memsz)) [
    | inl t ↦
        subst (λ b. InMemory image b p) (sym (with_zeros t))
          (
            Reads-cong copied (store copied (p.vaddr + p.filesz) zeros) p.vaddr text
                (λ j low high.
                  store_below copied (p.vaddr + p.filesz) zeros j (omega (arith, high, ends)))
                (Reads-store mem p.vaddr text),
            Reads-store copied (p.vaddr + p.filesz) zeros,
          )
    | inr f ↦
        subst (λ b. InMemory image b p) (sym (without f))
          (
            Reads-store mem p.vaddr text,
            subst (λ n. Reads copied (p.vaddr + p.filesz) (replicate n 0)) (sym (no_zeros f)) tt,
          )
  ]
