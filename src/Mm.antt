-- ===== src/Mm.antt =====
-- The address spaces of arch/x86/mm.c: page directories and tables, the pools they come from, and
-- the mapped regions. The addresses that the linker gives are a parameter. Structures of one page are
-- a store of entries by the virtual address of the page; a page table and a page directory are
-- read from the same store. The flushes of the TLB are not modelled.
pub mod Paging
pub mod Frames
pub mod Rows
pub mod Translate
pub mod Grow
pub mod Ensure
pub mod Enter
pub mod Turn
pub mod Mapping
pub mod Isolation
pub mod Unmapping
pub mod Regions
pub mod Chains
pub mod Copies
pub mod Inherit
pub mod Fork
mod Tests
use punix.Base.{
  ℕ, zero, suc, ◌+◌, ◌-◌, ◌*◌, ◌/◌, ◌%◌, bit_and, bit_or, Option, none, some, Bool, true, false,
  ltb, leb, ◌==◌, if◌then◌else◌, update, not,
}

-- `PAGE_SIZE`, `PAGE_TABLE_ENTRIES`, `2 ^ 32` and `MM_PAGING_PAGES_TOTAL`
abbrev pub page_size : ℕ
page_size = 4096

abbrev pub page_entries : ℕ
page_entries = 1024

abbrev pub word : ℕ
word = 4294967296

abbrev pub paging_pages : ℕ
paging_pages = 128

-- `MAX_PROCESS_CNT` and `MAX_VMAS_TOTAL`
abbrev pub max_mms : ℕ
max_mms = 64

abbrev pub max_vmas : ℕ
max_vmas = 1024

abbrev pub pte_index : ℕ → ℕ
pte_index va = va / 4096 % 1024

abbrev pub pde_index : ℕ → ℕ
pde_index va = va / 4194304

abbrev pub frame_to_pa : ℕ → ℕ
frame_to_pa frame = frame * 4096

-- An entry of a directory or of a table; `ps` is bit 7, `other` the bits that the code never touches.
pub record PageEntry : Type 0 where
  pub present : Bool
  pub writable : Bool
  pub user : Bool
  pub ps : Bool
  pub other : ℕ
  pub frame : ℕ

abbrev pub Row : Type 0
Row = ℕ → PageEntry

abbrev pub Pages : Type 0
Pages = ℕ → Row

-- The symbols of the linker script, and the address of `mm_paging_pool`.
pub record Layout : Type 0 where
  pub pa_start : ℕ
  pub va_base : ℕ
  pub directory : ℕ
  pub pool : ℕ
  pub premain_start : ℕ
  pub premain_end : ℕ

-- `struct mm_impl`
pub record Impl : Type 0 where
  pub pd_va : ℕ
  pub pd_pa : ℕ
  pub kernel_pde_start : ℕ

-- `struct vma`; a region pointer is the index in the pool.
pub record Vma : Type 0 where
  pub base_va : ℕ
  pub base_pa : ℕ
  pub size : ℕ
  pub flags : ℕ
  pub kind : ℕ
  pub next : Option ℕ

-- A pointer to the kernel's `struct mm` or to one of the pool; the same for `struct mm_impl`.
pub data Owner : Type 0 where
  kernel : Owner
  slot : ℕ → Owner

pub record Mm : Type 0 where
  pub impl : Owner
  pub vmas : Option ℕ

-- The static variables of the file.
pub record Vm : Type 0 where
  pub pages : Pages
  pub paging_next : ℕ
  pub kernel_mm : Mm
  pub proc_mms : ℕ → Mm
  pub proc_mm_next : ℕ
  pub kernel_impl : Impl
  pub impl_pool : ℕ → Impl
  pub impl_next : ℕ
  pub vma_pool : ℕ → Vma
  pub vma_next : ℕ
  pub copy_pt : Option ℕ

abbrev pub mm_of : Vm → Owner → Mm
mm_of vm Owner.kernel = vm.kernel_mm
mm_of vm (Owner.slot i) = vm.proc_mms i

abbrev pub set_mm : Vm → Owner → Mm → Vm
set_mm vm Owner.kernel m = record vm { kernel_mm = m }
set_mm vm (Owner.slot i) m = record vm { proc_mms = update vm.proc_mms i m }

abbrev pub impl_of : Vm → Owner → Impl
impl_of vm Owner.kernel = vm.kernel_impl
impl_of vm (Owner.slot i) = vm.impl_pool i

-- `kernel_pa_to_va` and `kernel_va_to_pa`
abbrev pub kernel_pa_to_va : Layout → ℕ → ℕ
kernel_pa_to_va l pa = (pa + (word - l.pa_start) + l.va_base) % word

abbrev pub kernel_va_to_pa : Layout → ℕ → ℕ
kernel_va_to_pa l va = (va + (word - l.va_base) + l.pa_start) % word

-- `pde_to_pt`
abbrev pub pde_to_pt : Layout → PageEntry → ℕ
pde_to_pt l pde = kernel_pa_to_va l (frame_to_pa pde.frame)

-- A frame number is the 20 bits of its field.
abbrev pub frame_bits : ℕ → ℕ
frame_bits pa = pa / 4096 % 1048576

abbrev pub pte_set : PageEntry → ℕ → Bool → Bool → Bool → PageEntry
pte_set p pa present writable user = record p {
  frame = frame_bits pa;
  present = present;
  writable = writable;
  user = user;
}

abbrev pub pte_clear : PageEntry → PageEntry
pte_clear p = record p { present = false }

abbrev pub clear_entry : PageEntry → PageEntry
clear_entry e = record e { present = false; writable = false; user = false; frame = 0 }

-- The first `n` turns of the loop of `pt_clear`.
abbrev pub pt_clear : ℕ → Row → Row
pt_clear zero row = row
pt_clear (suc n) row = update (pt_clear n row) n (clear_entry (pt_clear n row n))

abbrev pub set_entry : Pages → ℕ → ℕ → PageEntry → Pages
set_entry pages page i e = update pages page (update (pages page) i e)

-- The physical address of a page of the pool; 0 when the pool is used up.
abbrev pub alloc_page : Layout → Vm → ℕ × Vm
alloc_page l vm = if leb paging_pages vm.paging_next then (0, vm) else (
  kernel_va_to_pa l (l.pool + vm.paging_next * page_size),
  record vm { paging_next = vm.paging_next + 1 },
)

abbrev pub alloc_mm : Vm → Option (Owner × Vm)
alloc_mm vm =
    if leb max_mms vm.proc_mm_next
    then none
    else some (Owner.slot vm.proc_mm_next, record vm { proc_mm_next = vm.proc_mm_next + 1 })

abbrev pub alloc_impl : Vm → Option (Owner × Vm)
alloc_impl vm =
    if leb max_mms vm.impl_next
    then none
    else some (Owner.slot vm.impl_next, record vm { impl_next = vm.impl_next + 1 })

abbrev pub alloc_vma : Vm → Option (ℕ × Vm)
alloc_vma vm =
    if leb max_vmas vm.vma_next
    then none
    else some (vm.vma_next, record vm { vma_next = vm.vma_next + 1 })
