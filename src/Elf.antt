-- ===== src/Elf.antt =====
-- The loader of kernel/core/elf_loader.c. The headers of the image are records, its other bytes and
-- the memory are functions from the address, which share no bytes.
pub mod Segments
pub mod Loading
mod Tests
use punix.Base.{
  ℕ, ◌+◌, ◌-◌, ◌%◌, Option, none, some, List, [], ◌∷◌, replicate, Bool, not, ◌||◌, ltb, ◌==◌,
  if◌then◌else◌,
}
use punix.Buffer.{Buf, bytes, store}

abbrev pub word : ℕ
word = 4294967296

-- The fields of `Elf32_Ehdr` that the loader reads.
pub record ElfHeader : Type 0 where
  pub ident : ℕ → ℕ
  pub kind : ℕ
  pub entry : ℕ

-- The fields of `Elf32_Phdr` that the loader reads.
pub record ProgramHeader : Type 0 where
  pub kind : ℕ
  pub offset : ℕ
  pub vaddr : ℕ
  pub filesz : ℕ
  pub memsz : ℕ

-- `struct elf_info`
pub record ElfInfo : Type 0 where
  pub base_va : ℕ
  pub entry_va : ℕ
  pub max_offset : ℕ
  pub size : ℕ
  pub environ_off : ℕ
  pub curbrk_off : ℕ

unfoldable pub is_elf : ElfHeader → Bool
is_elf h = h.ident 0 == 127 || (h.ident 1 == b'E' || (h.ident 2 == b'L' || h.ident 3 == b'F'))

-- `p_type == PT_LOAD`
abbrev pub loads : ProgramHeader → Bool
loads p = p.kind == 1

-- The bytes of the file, and zeros behind them.
unfoldable pub load_segment : Buf → Buf → ProgramHeader → Buf
load_segment image mem p =
    let copied = store mem p.vaddr (bytes image p.offset p.filesz) in
    if ltb p.filesz p.memsz
    then store copied ((p.vaddr + p.filesz) % word) (replicate (p.memsz - p.filesz) 0)
    else copied

pub record LoadState : Type 0 where
  pub mem : Buf
  pub max_end : ℕ
  pub size : ℕ

abbrev pub load_step : Buf → LoadState → ProgramHeader → LoadState
load_step image s p =
    let end = (p.vaddr + p.memsz) % word in
    record {
      mem = load_segment image s.mem p;
      max_end = if ltb s.max_end end then end else s.max_end;
      size = (s.size + p.filesz) % word;
    }

-- The loop over the program headers.
unfoldable pub load_all : Buf → LoadState → List ProgramHeader → LoadState
load_all image s [] = s
load_all image s (p ∷ ps) = load_all image (if loads p then load_step image s p else s) ps

-- `none` is the -1 of an image that is refused; the segments are the `e_phnum` headers at `e_phoff`.
unfoldable pub elf_load : Buf → ElfHeader → List ProgramHeader → Buf → Option (Buf × ElfInfo)
elf_load image h segments mem =
    if not (is_elf h) || not (h.kind == 2)
    then none
    else (let s = load_all image (record { mem = mem; max_end = 0; size = 0 }) segments in
        some (
          s.mem,
          record {
            base_va = 0;
            entry_va = h.entry;
            max_offset = s.max_end;
            size = s.size;
            environ_off = 0;
            curbrk_off = 0;
          },
        ))
