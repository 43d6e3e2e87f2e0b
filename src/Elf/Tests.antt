-- ===== src/Elf/Tests.antt =====
-- The loader of kernel/core/elf_loader.c on an image with two segments to load and one of another type.
use punix.Base.{◌≡◌, inl, arith, true, false, ◌==◌, if◌then◌else◌, none, some, List, [], ◌∷◌, All}
use punix.Buffer.{Buf}
use punix.Elf.{ProgramHeader, ElfHeader, ElfInfo, is_elf, elf_load}
use punix.Elf.Loading.{Fits, AllDisjoint, LoadedAs, elf_load_lem}

abbrev header : ElfHeader
header = record {
  ident = λ i. if i == 0 then 127 else if i == 1 then b'E' else if i == 2 then b'L' else b'F';
  kind = 2;
  entry = 4194304;
}

abbrev segments : List ProgramHeader
segments =
    record { kind = 1; offset = 100; vaddr = 4194304; filesz = 3; memsz = 3 }
    ∷ record { kind = 4; offset = 0; vaddr = 0; filesz = 0; memsz = 0 }
    ∷ record { kind = 1; offset = 103; vaddr = 4198400; filesz = 2; memsz = 6 }
    ∷ []

abbrev image : Buf
image i = i

abbrev memory : Buf
memory i = 255

segments-Fits : All Fits segments
segments-Fits = (λ h. omega arith, (λ h. omega arith, (λ h. omega arith, tt)))

segments-AllDisjoint : AllDisjoint segments
segments-AllDisjoint =
    ((λ h k. absurd (cc), (λ h k. inl (omega arith), tt)), ((λ h k. absurd (cc), tt), (tt, tt)))

elf_load_lem_example :
    (is_elf header ≡ true
      → header.kind ≡ 2
      → (mem' : Buf) × (info : ElfInfo) × (elf_load image header segments memory
          ≡ some (mem', info))
        × LoadedAs image header segments memory mem' info)
    × (is_elf header ≡ false → elf_load image header segments memory ≡ none)
elf_load_lem_example = elf_load_lem image header segments memory segments-Fits segments-AllDisjoint
