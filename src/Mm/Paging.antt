-- ===== src/Mm/Paging.antt =====
-- `vm_map_impl`, `vm_unmap_impl` and `mm_va_to_pa` of arch/x86/mm.c. A directory is named by the virtual
-- address of its page, as in `impl->pd_va`. The loops run on fuel.
use punix.Base.{
  ℕ, zero, suc, ◌+◌, ◌-◌, ◌%◌, bit_and, bit_or, Option, none, some, true, false, ltb, ◌==◌,
  if◌then◌else◌, update,
}
use punix.Mm.{
  Vm, Owner, Layout, Pages, page_size, page_entries, word, pte_index, pde_index, frame_to_pa,
  frame_bits, pde_to_pt, kernel_pa_to_va, pt_clear, pte_set, pte_clear, set_entry, alloc_page,
  impl_of, mm_of,
}

-- The body of `if (!pde->present)`, from the allocated page on; `none` is its `return`.
abbrev pub add_table : Layout → ℕ → ℕ → ℕ × Vm → Option Vm
add_table l pd i (pt_pa, vm) =
    if pt_pa == 0
    then none
    else (let pt = kernel_pa_to_va l pt_pa in
        let pages = update vm.pages pt (pt_clear page_entries (vm.pages pt)) in
        some (record vm {
          pages = set_entry pages pd i (record (pages pd i) {
            frame = frame_bits pt_pa;
            present = true;
            writable = true;
            user = false;
            ps = false;
          });
        }))

unfoldable pub ensure_table : Layout → Vm → ℕ → ℕ → Option Vm
ensure_table l vm pd i =
    if (vm.pages pd i).present then some vm else add_table l pd i (alloc_page l vm)

-- The rest of the body of the loop, with the table there.
unfoldable pub map_page : Layout → Pages → ℕ → ℕ → ℕ → Pages
map_page l pages pd va pa =
    let i = pde_index va in
    let pt = pde_to_pt l (pages pd i) in
    let user = ltb va l.va_base in
    let pages1 =
      if user then set_entry pages pd i (record (pages pd i) { user = true }) else pages in
    set_entry pages1 pt (pte_index va) (pte_set (pages1 pt (pte_index va)) pa true true user)

-- The loop of `vm_map_impl`; `none` is an end of the fuel.
unfoldable pub vm_map : Layout → ℕ → Vm → ℕ → ℕ → ℕ → ℕ → Option Vm
vm_map l zero vm pd va pa size = none
vm_map l (suc fuel) vm pd va pa size =
    if size == 0 then some vm else elim (ensure_table l vm pd (pde_index va)) [
      | none ↦ some vm
      | some vm1 ↦
          vm_map l fuel (record vm1 { pages = map_page l vm1.pages pd va pa }) pd
            ((va + page_size) % word) ((pa + page_size) % word) ((size + (word - page_size)) % word)
    ]

unfoldable pub unmap_page : Layout → Pages → ℕ → ℕ → Pages
unmap_page l pages pd va =
    let pde = pages pd (pde_index va) in
    let pt = pde_to_pt l pde in
    if pde.present
    then set_entry pages pt (pte_index va) (pte_clear (pages pt (pte_index va)))
    else pages

unfoldable pub vm_unmap : Layout → ℕ → Pages → ℕ → ℕ → ℕ → Option Pages
vm_unmap l zero pages pd va size = none
vm_unmap l (suc fuel) pages pd va size =
    if size == 0
    then some pages
    else vm_unmap l fuel (unmap_page l pages pd va) pd ((va + page_size) % word)
        ((size + (word - page_size)) % word)

-- The reading of the two levels in `mm_va_to_pa`.
unfoldable pub translate : Layout → Pages → ℕ → ℕ → Option ℕ
translate l pages pd va =
    let pde = pages pd (pde_index va) in
    let pte = pages (pde_to_pt l pde) (pte_index va) in
    if pde.present
    then (if pte.present
        then some (bit_or (frame_to_pa pte.frame) (bit_and va (page_size - 1)))
        else none)
    else none

unfoldable pub mm_va_to_pa : Layout → Vm → Option Owner → ℕ → Option ℕ
mm_va_to_pa l vm none va = none
mm_va_to_pa l vm (some m) va = translate l vm.pages (impl_of vm (mm_of vm m).impl).pd_va va
