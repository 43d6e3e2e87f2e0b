-- ===== src/Elf/Loading.antt =====
-- `elf_load` of kernel/core/elf_loader.c as a whole.
use punix.Base.{
  ℕ, ◌+◌, ◌%◌, ◌<◌, ◌≤◌, ◌≡◌, ◌⊎◌, inl, inr, refl, sym, ap, subst, ◌∙◌, arith, List, [], ◌∷◌, All,
  true, false, not, ◌||◌, ◌==◌, Bool-cases, ltb, if-true, if-false, if◌then◌else◌, eq→==, none,
  some,
}
use punix.Buffer.{Buf}
use punix.Elf.{
  word, ProgramHeader, ElfHeader, ElfInfo, LoadState, is_elf, loads, load_segment, load_step,
  load_all, elf_load,
}
use punix.Elf.Segments.{
  extent, Outside, InMemory, InMemory-cong, load_segment-Outside, load_segment-InMemory,
}

-- A segment to load ends below the end of the address space.
abbrev pub Fits : ProgramHeader → Type 0
Fits p = loads p ≡ true → p.vaddr + extent p < word

abbrev pub Disjoint : ProgramHeader → ProgramHeader → Type 0
Disjoint p q =
    loads p ≡ true
    → loads q ≡ true
    → (p.vaddr + extent p ≤ q.vaddr) ⊎ (q.vaddr + extent q ≤ p.vaddr)

-- No two segments to load share an address.
abbrev pub AllDisjoint : List ProgramHeader → Type 0
AllDisjoint [] = Unit
AllDisjoint (p ∷ ps) = All (Disjoint p) ps × AllDisjoint ps

-- The highest end of a segment to load.
abbrev pub highest : ℕ → List ProgramHeader → ℕ
highest m [] = m
highest m (p ∷ ps) =
    highest (if loads p then (if ltb m (p.vaddr + p.memsz) then p.vaddr + p.memsz else m) else m) ps

module _ (image : Buf) where
  skip :
      (s : LoadState) (p : ProgramHeader) (ps : List ProgramHeader)
      → loads p ≡ false
      → load_all image s (p ∷ ps) ≡ load_all image s ps
  unfolding load_all
  skip s p ps h = ap (λ x. load_all image x ps) (if-false _ _ _ h)

  take :
      (s : LoadState) (p : ProgramHeader) (ps : List ProgramHeader)
      → loads p ≡ true
      → load_all image s (p ∷ ps) ≡ load_all image (load_step image s p) ps
  unfolding load_all
  take s p ps h = ap (λ x. load_all image x ps) (if-true _ _ _ h)

  at_end : (s : LoadState) → load_all image s [] ≡ s
  unfolding load_all
  at_end s = refl

  -- Addresses outside of every segment keep their bytes.
  pub load_all-Outside :
      (ps : List ProgramHeader) (s : LoadState) (j : ℕ)
      → All Fits ps
      → All (λ p. loads p ≡ true → Outside p j) ps
      → (load_all image s ps).mem j ≡ s.mem j
  load_all-Outside [] s j f o = ap (λ (x : LoadState). x.mem j) (at_end s)
  load_all-Outside (p ∷ ps) s j f o = elim (Bool-cases (loads p)) [
    | inl h ↦
        ap (λ (x : LoadState). x.mem j) (take s p ps h)
        ∙ load_all-Outside ps (load_step image s p) j f.1 o.1
        ∙ load_segment-Outside image s.mem p (f.0 h) j (o.0 h)
    | inr h ↦ ap (λ (x : LoadState). x.mem j) (skip s p ps h) ∙ load_all-Outside ps s j f.1 o.1
  ]

  -- An address of a segment is outside of those that are disjoint from it.
  away :
      (p : ProgramHeader) (qs : List ProgramHeader) (j : ℕ)
      → loads p ≡ true
      → p.vaddr ≤ j
      → j < p.vaddr + extent p
      → All (Disjoint p) qs
      → All (λ q. loads q ≡ true → Outside q j) qs
  away p [] j h low high d = tt
  away p (q ∷ qs) j h low high d = (
    λ hq. elim (d.0 h hq) [
      | inl le ↦ inl (omega (arith, le, high))
      | inr le ↦ inr (omega (arith, le, low))
    ],
    away p qs j h low high d.1,
  )

  load_all-InMemory :
      (ps : List ProgramHeader) (s : LoadState)
      → All Fits ps
      → AllDisjoint ps
      → All (λ p. loads p ≡ true → InMemory image (load_all image s ps).mem p) ps
  load_all-InMemory [] s f d = tt
  load_all-InMemory (p ∷ ps) s f d = elim (Bool-cases (loads p)) [
    | inl h ↦
        subst (λ (x : LoadState). All (λ q. loads q ≡ true → InMemory image x.mem q) (p ∷ ps))
          (sym (take s p ps h))
          (
            λ _.
                InMemory-cong image (load_segment image s.mem p)
                  (load_all image (load_step image s p) ps).mem p
                  (λ j low high.
                    load_all-Outside ps (load_step image s p) j f.1 (away p ps j h low high d.0))
                  (load_segment-InMemory image s.mem p (f.0 h)),
            load_all-InMemory ps (load_step image s p) f.1 d.1,
          )
    | inr h ↦
        subst (λ (x : LoadState). All (λ q. loads q ≡ true → InMemory image x.mem q) (p ∷ ps))
          (sym (skip s p ps h)) (λ t. absurd (cc), load_all-InMemory ps s f.1 d.1)
  ]

  load_all-highest :
      (ps : List ProgramHeader) (s : LoadState)
      → All Fits ps
      → (load_all image s ps).max_end ≡ highest s.max_end ps
  load_all-highest [] s f = ap (λ (x : LoadState). x.max_end) (at_end s)
  load_all-highest (p ∷ ps) s f = elim (Bool-cases (loads p)) [
    | inl h ↦
        (let fits = f.0 h in
          let end : (p.vaddr + p.memsz) % word ≡ p.vaddr + p.memsz = omega (arith, fits) in
          ap (λ (x : LoadState). x.max_end) (take s p ps h)
          ∙ load_all-highest ps (load_step image s p) f.1
          ∙ ap (λ e. highest (if ltb s.max_end e then e else s.max_end) ps) end
          ∙ ap (λ m. highest m ps) (sym (if-true _ _ _ h)))
    | inr h ↦
        ap (λ (x : LoadState). x.max_end) (skip s p ps h)
        ∙ load_all-highest ps s f.1
        ∙ ap (λ m. highest m ps) (sym (if-false _ _ _ h))
  ]

-- The memory and the description that an image leaves.
pub record LoadedAs (image : Buf) (h : ElfHeader) (ps : List ProgramHeader) (mem mem' : Buf)
    (info : ElfInfo) : Type 0 where
  pub inside : All (λ p. loads p ≡ true → InMemory image mem' p) ps
  pub outside : (j : ℕ) → All (λ p. loads p ≡ true → Outside p j) ps → mem' j ≡ mem j
  pub entry : info.entry_va ≡ h.entry
  pub top : info.max_offset ≡ highest 0 ps

-- `elf_load` of an executable that `is_elf` accepts, whose segments to load are disjoint and below the
-- end of the address space: each has its bytes of the file in memory, and zeros up to its size
-- there, no other byte changes, and the entry and the highest end are given back. An image that
-- `is_elf` does not accept is refused.
pub elf_load_lem :
    (image : Buf) (h : ElfHeader) (ps : List ProgramHeader) (mem : Buf)
    → All Fits ps
    → AllDisjoint ps
    → (is_elf h ≡ true
        → h.kind ≡ 2
        → (mem' : Buf) × (info : ElfInfo) × (elf_load image h ps mem ≡ some (mem', info))
          × LoadedAs image h ps mem mem' info)
      × (is_elf h ≡ false → elf_load image h ps mem ≡ none)
unfolding elf_load
elf_load_lem image h ps mem f d = (
  λ magic exec.
      let accepted : (not (is_elf h) || not (h.kind == 2)) ≡ false =
        ap (λ b. not b || not (h.kind == 2)) magic ∙ ap not (eq→== h.kind 2 exec) in
      let s : LoadState = record { mem = mem; max_end = 0; size = 0 } in
      let r = load_all image s ps in
      (
        r.mem,
        record {
          base_va = 0;
          entry_va = h.entry;
          max_offset = r.max_end;
          size = r.size;
          environ_off = 0;
          curbrk_off = 0;
        },
        if-false _ _ _ accepted,
        record {
          inside = load_all-InMemory image ps s f d;
          outside = λ j o. load_all-Outside image ps s j f o;
          entry = refl;
          top = load_all-highest image ps s f;
        },
      ),
  λ other. if-true _ _ _ (ap (λ b. not b || not (h.kind == 2)) other),
)
