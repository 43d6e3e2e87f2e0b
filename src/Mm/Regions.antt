-- ===== src/Mm/Regions.antt =====
-- The operations of arch/x86/mm.c on address spaces as a whole. Where a loop runs on fuel or the code
-- panics, the outer `none` stands for it. Interrupt gates and the switch of the address space are not
-- modelled.
use punix.Base.{
  ℕ, zero, suc, ◌+◌, ◌-◌, ◌%◌, Option, none, some, Bool, true, false, ◌==◌, if◌then◌else◌, ◌>>=◌,
  update,
}
use punix.Mm.{
  Vm, Vma, Owner, Layout, Pages, PageEntry, word, page_entries, pde_index, frame_bits,
  kernel_pa_to_va, kernel_va_to_pa, pt_clear, set_entry, alloc_page, alloc_mm, alloc_impl,
  alloc_vma, mm_of, set_mm, impl_of, max_vmas,
}
use punix.Mm.Paging.{vm_map, vm_unmap}

-- More turns than the address space has pages.
abbrev pub map_fuel : ℕ
map_fuel = 1048577

abbrev pub page_align_down : ℕ → ℕ
page_align_down x = x - x % 4096

abbrev pub page_align_up : ℕ → ℕ
page_align_up x = page_align_down ((x + 4095) % word)

-- A region of the pool is filled in and put in front of the list.
abbrev pub link_vma : Vm → Owner → ℕ → Vma → Vm
link_vma vm m i v =
    set_mm (record vm { vma_pool = update vm.vma_pool i (record v { next = (mm_of vm m).vmas }) }) m
      (record (mm_of vm m) { vmas = some i })

pub mm_add_vma : Layout → Vm → Owner → ℕ → ℕ → ℕ → ℕ → ℕ → Option (Option ℕ × Vm)
mm_add_vma l vm m kind va size flags pa = elim (alloc_vma vm) [
  | none ↦ some (none, vm)
  | some (i, vm1) ↦
      (let vm2 = link_vma vm1 m i (record {
        base_va = va;
        base_pa = pa;
        size = size;
        flags = flags;
        kind = kind;
        next = none;
      }) in
        vm_map l map_fuel vm2 (impl_of vm2 (mm_of vm2 m).impl).pd_va va pa size >>= λ vm3.
        some (some i, vm3))
]

-- The loop of `mm_find_vma_by_type`.
unfoldable pub find_vma : ℕ → (ℕ → Vma) → Option ℕ → ℕ → Option (Option ℕ)
find_vma fuel pool none kind = some none
find_vma zero pool (some v) kind = none
find_vma (suc fuel) pool (some v) kind =
    if (pool v).kind == kind then some (some v) else find_vma fuel pool (pool v).next kind

pub mm_find_vma_by_type : Vm → Owner → ℕ → Option (Option ℕ)
mm_find_vma_by_type vm m kind = find_vma (max_vmas + 1) vm.vma_pool (mm_of vm m).vmas kind

-- The first `n` turns of the two loops over the new directory.
abbrev pub clear_dir_entry : PageEntry → PageEntry
clear_dir_entry e = record e {
  present = false;
  writable = false;
  user = false;
  frame = 0;
  ps = false;
}

abbrev pub clear_dir : ℕ → Pages → ℕ → Pages
clear_dir zero pages pd = pages
clear_dir (suc n) pages pd =
    let p = clear_dir n pages pd in set_entry p pd n (clear_dir_entry (p pd n))

abbrev pub copy_dir : ℕ → Pages → ℕ → ℕ → Pages
copy_dir zero pages kernel pd = pages
copy_dir (suc n) pages kernel pd =
    let p = copy_dir n pages kernel pd in
    if (p kernel n).present then set_entry p pd n (p kernel n) else p

-- The loop over the kernel's regions; `false` is the `return` for lack of a region.
unfoldable pub copy_vmas : ℕ → Vm → Owner → Option ℕ → Option (Bool × Vm)
copy_vmas fuel vm m none = some (true, vm)
copy_vmas zero vm m (some kv) = none
copy_vmas (suc fuel) vm m (some kv) = elim (alloc_vma vm) [
  | none ↦ some (false, vm)
  | some (i, vm1) ↦
      (let vm2 = link_vma vm1 m i (vm1.vma_pool kv) in copy_vmas fuel vm2 m (vm2.vma_pool kv).next)
]

-- `impl->pd_va`, `impl->pd_pa` and the directory.
abbrev pub fill_directory : Layout → Vm → Owner → ℕ → Vm
fill_directory l vm Owner.kernel pd_pa = vm
fill_directory l vm (Owner.slot i) pd_pa =
    let pd = kernel_pa_to_va l pd_pa in
    record vm {
      impl_pool = update vm.impl_pool i (record {
        pd_va = pd;
        pd_pa = pd_pa;
        kernel_pde_start = vm.kernel_impl.kernel_pde_start;
      });
      pages = copy_dir page_entries (clear_dir page_entries vm.pages pd) vm.kernel_impl.pd_va pd;
    }

abbrev pub fork_directory : Layout → Owner → Owner → ℕ × Vm → Option (Option Owner × Vm)
fork_directory l m impl (pd_pa, vm) =
    if pd_pa == 0
    then some (none, vm)
    else copy_vmas (max_vmas + 1) (fill_directory l vm impl pd_pa) m vm.kernel_mm.vmas
      >>= λ (ok, vm1). some (if ok then some m else none, vm1)

abbrev pub fork_impl : Layout → Owner → Vm → Option (Owner × Vm) → Option (Option Owner × Vm)
fork_impl l m vm none = some (none, vm)
fork_impl l m vm (some (impl, vm1)) =
    fork_directory l m impl (alloc_page l (set_mm vm1 m (record { impl = impl; vmas = none })))

abbrev pub fork_mm : Layout → Vm → Option (Owner × Vm) → Option (Option Owner × Vm)
fork_mm l vm none = some (none, vm)
fork_mm l vm (some (m, vm1)) = fork_impl l m vm1 (alloc_impl vm1)

unfoldable pub mm_fork_kernel : Layout → Vm → Option (Option Owner × Vm)
mm_fork_kernel l vm = fork_mm l vm (alloc_mm vm)

pub vm_unmap_premain : Layout → Vm → Option Vm
vm_unmap_premain l vm =
    let start = page_align_down l.premain_start in
    let end = page_align_up l.premain_end in
    vm_unmap l map_fuel vm.pages vm.kernel_impl.pd_va start ((end + (word - start)) % word)
    >>= λ pages. some (record vm { pages = pages })

-- The permanent table of the copy window, at `COPY_SRC_VA`.
abbrev pub copy_src_va : ℕ
copy_src_va = 4278190080

abbrev pub init_window : Layout → ℕ × Vm → Option Vm
init_window l (pt_pa, vm) =
    if pt_pa == 0
    then none
    else (let pt = kernel_pa_to_va l pt_pa in
        let pd = vm.kernel_impl.pd_va in
        let i = pde_index copy_src_va in
        let pages = update vm.pages pt (pt_clear page_entries (vm.pages pt)) in
        some (record vm {
          copy_pt = some pt;
          pages = set_entry pages pd i (record (pages pd i) {
            frame = frame_bits pt_pa;
            present = true;
            writable = true;
            user = false;
            ps = false;
          });
        }))

-- The type, address and size of the text buffer, and `VMA_READ | VMA_WRITE`.
pub mm_init : Layout → Vm → Option Vm
mm_init l vm =
    let vm1 = record vm {
      kernel_mm = record { impl = Owner.kernel; vmas = none };
      kernel_impl = record {
        pd_va = l.directory;
        pd_pa = kernel_va_to_pa l l.directory;
        kernel_pde_start = pde_index l.va_base;
      };
    } in
    vm_unmap_premain l vm1 >>= λ vm2.
    mm_add_vma l vm2 Owner.kernel 1 753664 4096 3 753664 >>= λ (v, vm3).
    init_window l (alloc_page l vm3)
