-- ===== src/Mm/Fork.antt =====
-- `mm_fork_kernel` of arch/x86/mm.c: a new address space with the mappings and the regions of the kernel.
use punix.Base.{
  ℕ, ◌+◌, ◌<◌, ◌≤◌, ◌≡◌, sym, ap, ap₂, subst, ◌∙◌, arith, Bool, false, if◌then◌else◌, if-false, leb,
  ◌==◌, ne→==, ◌>>=◌, Option, none, some, List, [], length, update, update_self,
}
use punix.Paths.{reverse_onto}
use punix.Mm.{
  Vm, Mm, Impl, Owner, Layout, Pages, page_entries, paging_pages, max_mms, max_vmas, set_mm,
  kernel_va_to_pa, impl_of, mm_of,
}
use punix.Mm.Paging.{translate, mm_va_to_pa}
use punix.Mm.Regions.{
  mm_fork_kernel, fork_mm, fork_impl, fork_directory, copy_vmas, copy_dir, clear_dir,
}
use punix.Mm.Frames.{IsLayout, fresh_page, fresh-ne, pa_to_va-va_to_pa}
use punix.Mm.Translate.{IsApart}
use punix.Mm.Inherit.{inherited, kernel_kept, IsApart-new}
use punix.Mm.Chains.{Region, Lists, Copied, copy_vmas_lem}

module _ (l : Layout) (vm : Vm) where
  abbrev m : ℕ
  m = vm.proc_mm_next

  abbrev k : ℕ
  k = vm.kernel_impl.pd_va

  -- The state when the page of the directory has been taken, and when the directory is filled.
  abbrev vm1 : Vm
  vm1 = record vm { proc_mm_next = vm.proc_mm_next + 1 }

  abbrev vm3 : Vm
  vm3 =
      set_mm (record vm1 { impl_next = vm.impl_next + 1 }) (Owner.slot m)
        (record { impl = Owner.slot vm.impl_next; vmas = none })

  abbrev vm4 : Vm
  vm4 = record vm3 { paging_next = vm.paging_next + 1 }

  abbrev filled : ℕ → ℕ → Vm
  filled pa q = record vm4 {
    impl_pool =
        update vm.impl_pool vm.impl_next
          (record { pd_va = q; pd_pa = pa; kernel_pde_start = vm.kernel_impl.kernel_pde_start });
    pages = copy_dir page_entries (clear_dir page_entries vm.pages q) k q;
  }

  abbrev pa : ℕ
  pa = kernel_va_to_pa l (fresh_page l vm.paging_next)

  finish : Option (Bool × Vm) → Option (Option Owner × Vm)
  finish r = r >>= λ (ok, vm'). some (if ok then some (Owner.slot m) else none, vm')

  fork_steps :
      IsLayout l
      → vm.proc_mm_next < max_mms
      → vm.impl_next < max_mms
      → vm.paging_next < paging_pages
      → mm_fork_kernel l vm
        ≡ finish (
            copy_vmas
              (max_vmas + 1)
              (filled pa (fresh_page l vm.paging_next))
              (Owner.slot m)
              vm.kernel_mm.vmas)
  unfolding mm_fork_kernel finish
  fork_steps is room_mm room_impl room =
      ap (fork_mm l vm) (if-false (leb max_mms vm.proc_mm_next) _ _ (ground arith))
      ∙ ap (fork_impl l (Owner.slot m) vm1) (if-false (leb max_mms vm.impl_next) _ _ (ground arith))
      ∙ ap (fork_directory l (Owner.slot m) (Owner.slot vm.impl_next))
          (if-false (leb paging_pages vm.paging_next) _ _ (ground arith))
      ∙ if-false (pa == 0) _ _ (ne→== pa 0 (fresh-ne l is vm.paging_next room))
      ∙ ap (λ q. finish (copy_vmas (max_vmas + 1) (filled pa q) (Owner.slot m) vm.kernel_mm.vmas))
          (pa_to_va-va_to_pa l is vm.paging_next room)

-- The pools have room, and the kernel's address space is as the loops need it.
pub record CanFork (l : Layout) (vm : Vm) (rs : List Region) : Type 0 where
  pub room_mm : vm.proc_mm_next < max_mms
  pub room_impl : vm.impl_next < max_mms
  pub room : vm.paging_next < paging_pages
  pub is_apart : IsApart l vm.paging_next vm.pages vm.kernel_impl.pd_va
  pub kernel : vm.kernel_mm.impl ≡ Owner.kernel
  pub end_k : (j : ℕ) → page_entries ≤ j → (vm.pages vm.kernel_impl.pd_va j).present ≡ false
  pub end_pd :
      (j : ℕ) → page_entries ≤ j → (vm.pages (fresh_page l vm.paging_next) j).present ≡ false
  pub regions : Lists vm.vma_pool vm.vma_next vm.kernel_mm.vmas rs
  pub room_vmas : vm.vma_next + length rs ≤ max_vmas

-- The new address space translates as the kernel's, which translates as before; its tables are apart,
-- and it has the kernel's regions, in the reverse order.
pub record Forks (l : Layout) (vm vm' : Vm) (o : Owner) (rs : List Region) : Type 0 where
  pub inherits : (va : ℕ) → mm_va_to_pa l vm' (some o) va ≡ mm_va_to_pa l vm (some Owner.kernel) va
  pub keeps :
      (va : ℕ) → mm_va_to_pa l vm' (some Owner.kernel) va ≡ mm_va_to_pa l vm (some Owner.kernel) va
  pub is_apart : IsApart l vm'.paging_next vm'.pages (impl_of vm' (mm_of vm' o).impl).pd_va
  pub regions : Lists vm'.vma_pool vm'.vma_next (mm_of vm' o).vmas (reverse_onto rs [])

module _ (l : Layout) (vm : Vm) (rs : List Region) (is : IsLayout l) (c : CanFork l vm rs) where
  abbrev q : ℕ
  q = fresh_page l vm.paging_next

  abbrev full : Vm
  full = filled l vm (pa l vm) q

  slot_full : full.proc_mms vm.proc_mm_next ≡ record { impl = Owner.slot vm.impl_next; vmas = none }
  slot_full = update_self vm.proc_mms vm.proc_mm_next _

  impl_full : (full.impl_pool vm.impl_next).pd_va ≡ q
  impl_full = ap (λ (x : Impl). x.pd_va) (update_self vm.impl_pool vm.impl_next _)

  module _ (vm' : Vm) (e : Copied full vm' vm.proc_mm_next) where
    impl_new : (vm'.proc_mms vm.proc_mm_next).impl ≡ Owner.slot vm.impl_next
    impl_new = e.impl ∙ ap (λ (x : Mm). x.impl) slot_full

    dir_new : (impl_of vm' (vm'.proc_mms vm.proc_mm_next).impl).pd_va ≡ q
    dir_new =
        ap (λ o. (impl_of vm' o).pd_va) impl_new
        ∙ ap (λ (pool : ℕ → Impl). (pool vm.impl_next).pd_va) e.impl_pool
        ∙ impl_full

    dir_kernel : (impl_of vm' vm'.kernel_mm.impl).pd_va ≡ vm.kernel_impl.pd_va
    dir_kernel =
        ap (λ (x : Mm). (impl_of vm' x.impl).pd_va) e.kernel_mm
        ∙ ap (λ o. (impl_of vm' o).pd_va) c.kernel
        ∙ ap (λ (x : Impl). x.pd_va) e.kernel_impl

    dir_before : (impl_of vm vm.kernel_mm.impl).pd_va ≡ vm.kernel_impl.pd_va
    dir_before = ap (λ o. (impl_of vm o).pd_va) c.kernel

    inherits :
        (va : ℕ)
        → mm_va_to_pa l vm' (some (Owner.slot vm.proc_mm_next)) va
          ≡ mm_va_to_pa l vm (some Owner.kernel) va
    unfolding mm_va_to_pa
    inherits va =
        ap₂ (λ (p : Pages) (d : ℕ). translate l p d va) e.pages dir_new
        ∙ inherited l vm.pages vm.paging_next vm.kernel_impl.pd_va c.is_apart c.room c.end_k
            c.end_pd va
        ∙ ap (λ (d : ℕ). translate l vm.pages d va) (sym dir_before)

    keeps :
        (va : ℕ)
        → mm_va_to_pa l vm' (some Owner.kernel) va ≡ mm_va_to_pa l vm (some Owner.kernel) va
    unfolding mm_va_to_pa
    keeps va =
        ap₂ (λ (p : Pages) (d : ℕ). translate l p d va) e.pages dir_kernel
        ∙ kernel_kept l vm.pages vm.paging_next vm.kernel_impl.pd_va c.is_apart c.room c.end_k
            c.end_pd va
        ∙ ap (λ (d : ℕ). translate l vm.pages d va) (sym dir_before)

    IsApart-full :
        IsApart l vm'.paging_next vm'.pages (impl_of vm' (vm'.proc_mms vm.proc_mm_next).impl).pd_va
    IsApart-full =
        subst (λ n. IsApart l n vm'.pages (impl_of vm' (vm'.proc_mms vm.proc_mm_next).impl).pd_va)
          (sym e.paging_next)
          (subst
            (λ p.
              IsApart l (vm.paging_next + 1) p
                (impl_of vm' (vm'.proc_mms vm.proc_mm_next).impl).pd_va)
            (sym e.pages)
            (subst (λ d. IsApart l (vm.paging_next + 1) full.pages d) (sym dir_new)
              (IsApart-new l vm.pages vm.paging_next vm.kernel_impl.pd_va c.is_apart c.room c.end_k
                c.end_pd)))

  -- If the pools have room and the tables of the kernel are apart, `mm_fork_kernel` makes a new address
  -- space that translates every address as the kernel's, which keeps its translations, and that has
  -- copies of the kernel's regions in the reverse order; the tables of the new one are apart.
  pub mm_fork_kernel_lem :
      (vm' : Vm) × (mm_fork_kernel l vm ≡ some (some (Owner.slot vm.proc_mm_next), vm'))
      × Forks l vm vm' (Owner.slot vm.proc_mm_next) rs
  unfolding finish
  mm_fork_kernel_lem =
      let empty : (full.proc_mms vm.proc_mm_next).vmas ≡ none = ap (λ (x : Mm). x.vmas) slot_full in
      let (vm', eq, lists, grows, e) =
        copy_vmas_lem rs [] (max_vmas + 1) full vm.proc_mm_next vm.kernel_mm.vmas c.regions empty
          (omega (arith, c.room_vmas)) c.room_vmas in
      (
        vm',
        fork_steps l vm is c.room_mm c.room_impl c.room ∙ ap (finish l vm) eq,
        record {
          inherits = inherits vm' e;
          keeps = keeps vm' e;
          is_apart = IsApart-full vm' e;
          regions = lists;
        },
      )
