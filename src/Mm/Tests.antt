-- ===== src/Mm/Tests.antt =====
-- The address spaces of arch/x86/mm.c on a kernel with one table and one region, and a second directory.
use punix.Base.{
  ℕ, ◌*◌, ◌<◌, ◌≤◌, ◌≡◌, ◌≢◌, refl, sym, ap, ◌∙◌, arith, Bool, true, false, if-false, ne→==, ◌==◌,
  if◌then◌else◌, ℕ_discrete, Option, none, some, [], ◌∷◌, map?,
}
use punix.Mm.{Vm, Owner, Layout, Pages, Row, PageEntry, page_size}
use punix.Mm.Paging.{translate, vm_map, vm_unmap}
use punix.Mm.Regions.{mm_fork_kernel, find_vma}
use punix.Mm.Frames.{IsLayout}
use punix.Mm.Translate.{IsApart, table_of}
use punix.Mm.Turn.{Maps}
use punix.Mm.Mapping.{vm_map_lem}
use punix.Mm.Isolation.{IsForeign, IsOtherSpace, vm_map-others}
use punix.Mm.Unmapping.{Unmapped, vm_unmap_lem}
use punix.Mm.Chains.{Region, Lists, region, first_of, find_vma_lem}
use punix.Mm.Fork.{CanFork, Forks, mm_fork_kernel_lem}

abbrev layout : Layout
layout = record {
  pa_start = 1048576;
  va_base = 2147483648;
  directory = 2147487744;
  pool = 2148532224;
  premain_start = 1048576;
  premain_end = 1052672;
}

layout-IsLayout : IsLayout layout
layout-IsLayout = record {
  pa_aligned = refl;
  va_aligned = refl;
  pool_aligned = refl;
  not_null = omega arith;
  low = omega arith;
  va_fits = omega arith;
  pa_fits = omega arith;
}

abbrev entry : Bool → ℕ → PageEntry
entry p f = record { present = p; writable = p; user = false; ps = false; other = 0; frame = f }

abbrev one_entry : ℕ → ℕ → Row
one_entry at f i = if i == at then entry true f else entry false 0

abbrev kernel_dir : ℕ
kernel_dir = 2147487744

abbrev other_dir : ℕ
other_dir = 2147495936

-- The kernel's directory leads to the page behind it, and so does the other one.
abbrev pages : Pages
pages page =
    if page == kernel_dir
    then one_entry 512 258
    else if page == 2147491840
    then one_entry 3 7
    else if page == other_dir
    then one_entry 1 260
    else (λ i. entry false 0)

abbrev vga : Region
vga = record { va = 753664; pa = 753664; size = 4096; flags = 3; kind = 1 }

abbrev vm : Vm
vm = record {
  pages = pages;
  paging_next = 0;
  kernel_mm = record { impl = Owner.kernel; vmas = some 0 };
  proc_mms = λ i. record { impl = Owner.kernel; vmas = none };
  proc_mm_next = 0;
  kernel_impl = record { pd_va = kernel_dir; pd_pa = 1052672; kernel_pde_start = 512 };
  impl_pool = λ i. record { pd_va = 0; pd_pa = 0; kernel_pde_start = 0 };
  impl_next = 0;
  vma_pool = λ i. record {
    base_va = 753664;
    base_pa = 753664;
    size = 4096;
    flags = 3;
    kind = 1;
    next = none;
  };
  vma_next = 1;
  copy_pt = none;
}

only : (at f i : ℕ) → (one_entry at f i).present ≡ true → i ≡ at
only at f i h = elim (ℕ_discrete i at) [
  | yes e ↦ e
  | no ne ↦
      (let absent : (one_entry at f i).present ≡ false =
          ap (λ (x : PageEntry). x.present) (if-false (i == at) _ _ (ne→== i at ne)) in
        absurd (cc))
]

beyond : (at f j : ℕ) → at < 1024 → 1024 ≤ j → (one_entry at f j).present ≡ false
beyond at f j h low =
    ap (λ (x : PageEntry). x.present) (if-false (j == at) _ _ (ne→== j at (omega arith)))

to_table :
    (i : ℕ) → (pages kernel_dir i).present ≡ true → table_of layout pages kernel_dir i ≡ 2147491840
to_table i h = ap (table_of layout pages kernel_dir) (only 512 258 i h)

pages-IsApart : IsApart layout 0 pages kernel_dir
pages-IsApart = record {
  inj = λ i j hi hj e. only 512 258 i hi ∙ sym (only 512 258 j hj);
  not_dir = λ i h e. omega (arith, to_table i h, e);
  fresh_dir = λ k low high e. omega (arith, e);
  fresh_table = λ k i low high h e. omega (arith, to_table i h, e);
}

foreign :
    (q : ℕ)
    → q ≢ kernel_dir
    → q < 2148532224
    → q ≢ 2147491840
    → IsForeign layout vm kernel_dir 4194304 2 q
foreign q nd low nt = record {
  dir = nd;
  taken = λ k h high e. omega (arith, low, e);
  table = λ k h p e. nt (e ∙ to_table _ p);
}

other-IsOtherSpace : IsOtherSpace layout vm kernel_dir 4194304 2 other_dir
other-IsOtherSpace = record {
  itself = foreign other_dir (λ e. omega (arith, e)) (omega arith) (λ e. omega (arith, e));
  tables = λ j h.
      let to : table_of layout pages other_dir j ≡ 2147500032 =
        ap (table_of layout pages other_dir) (only 1 260 j h) in
      foreign (table_of layout pages other_dir j) (λ e. omega (arith, to, e)) (omega (arith, to))
        (λ e. omega (arith, to, e));
}

vm_map_lem_example :
    Maps layout vm kernel_dir 4194304 5242880 2
      (vm_map layout 3 vm kernel_dir 4194304 5242880 (2 * page_size))
vm_map_lem_example =
    vm_map_lem layout layout-IsLayout kernel_dir 2 3 vm 4194304 5242880 (omega arith) (omega arith)
      (omega arith) pages-IsApart

vm_map-others_example :
    (vm' : Vm) × (vm_map layout 3 vm kernel_dir 4194304 5242880 (2 * page_size) ≡ some vm')
    × ((va' : ℕ) → translate layout vm'.pages other_dir va' ≡ translate layout pages other_dir va')
vm_map-others_example =
    vm_map-others layout vm kernel_dir 4194304 5242880 2 3 other_dir layout-IsLayout (omega arith)
      (omega arith) (omega arith) pages-IsApart other-IsOtherSpace

vm_unmap_lem_example :
    (pages' : Pages) × (vm_unmap layout 5 pages kernel_dir 2147483648 (4 * page_size) ≡ some pages')
    × Unmapped layout pages pages' 0 kernel_dir 2147483648 4
vm_unmap_lem_example =
    vm_unmap_lem layout 0 kernel_dir 4 5 2147483648 pages (omega arith) (omega arith) pages-IsApart

kernel-Lists : Lists vm.vma_pool 1 (some 0) (vga ∷ [])
kernel-Lists = (0, refl, omega arith, refl, refl)

find_vma_lem_example :
    (r : Option ℕ) × (find_vma 5 vm.vma_pool (some 0) 1 ≡ some r)
    × (map? (λ i. region (vm.vma_pool i)) r ≡ first_of 1 (vga ∷ []))
find_vma_lem_example = find_vma_lem 5 vm.vma_pool 1 (some 0) 1 (vga ∷ []) kernel-Lists (omega arith)

can_fork : CanFork layout vm (vga ∷ [])
can_fork = record {
  room_mm = omega arith;
  room_impl = omega arith;
  room = omega arith;
  is_apart = pages-IsApart;
  kernel = refl;
  end_k = λ j h. beyond 512 258 j (omega arith) h;
  end_pd = λ j h. refl;
  regions = kernel-Lists;
  room_vmas = omega arith;
}

mm_fork_kernel_lem_example :
    (vm' : Vm) × (mm_fork_kernel layout vm ≡ some (some (Owner.slot 0), vm'))
    × Forks layout vm vm' (Owner.slot 0) (vga ∷ [])
mm_fork_kernel_lem_example = mm_fork_kernel_lem layout vm (vga ∷ []) layout-IsLayout can_fork

-- The page 3 of the kernel is in frame 7; after a mapping, its second page is where it was put.
before : translate layout pages kernel_dir 2147495937 ≡ some 28673
unfolding translate
before = refl
