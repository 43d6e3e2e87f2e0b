-- ===== src/Mm/Mapping.antt =====
-- `vm_map_impl` of arch/x86/mm.c as a whole: the pages of a range, one after another.
use punix.Base.{
  ℕ, zero, suc, ◌+◌, ◌-◌, ◌*◌, ◌%◌, ◌<◌, ◌≡◌, ◌≢◌, inl, inr, refl, ap, ap₂, ◌∙◌, arith, ◌==◌,
  if-false, ne→==, Option, none, some, Option-cases,
}
use punix.Mm.{Vm, Layout, word, page_size, pde_index}
use punix.Mm.Paging.{vm_map, ensure_table, map_page}
use punix.Mm.Frames.{IsLayout}
use punix.Mm.Translate.{IsApart}
use punix.Mm.Turn.{Maps, nothing, turn}
use punix.Mm.Ensure.{with_pages, ensure_table_lem}
use punix.Mm.Enter.{IsApart-mapped}

module _ (l : Layout) (is : IsLayout l) (pd : ℕ) where
  -- The body of the loop, applied to what `ensure_table` gives.
  abbrev go_on : ℕ → ℕ → ℕ → ℕ → Vm → Option Vm → Option Vm
  go_on fuel va pa size vm none = some vm
  go_on fuel va pa size vm (some vm1) =
      vm_map l fuel (record vm1 { pages = map_page l vm1.pages pd va pa }) pd
        ((va + page_size) % word) ((pa + page_size) % word) ((size + (word - page_size)) % word)

  unroll :
      (fuel : ℕ) (vm : Vm) (va pa size : ℕ)
      → size ≢ 0
      → vm_map l (suc fuel) vm pd va pa size
        ≡ go_on fuel va pa size vm (ensure_table l vm pd (pde_index va))
  unfolding vm_map
  unroll fuel vm va pa size h = elim (Option-cases (ensure_table l vm pd (pde_index va))) [
    | inl e ↦ if-false (size == 0) _ _ (ne→== size 0 h) ∙ rw e refl
    | inr (vm1, e) ↦ if-false (size == 0) _ _ (ne→== size 0 h) ∙ rw e refl
  ]

  at_end : (fuel : ℕ) (vm : Vm) (va pa : ℕ) → vm_map l (suc fuel) vm pd va pa 0 ≡ some vm
  unfolding vm_map
  at_end fuel vm va pa = refl

  arguments :
      (fuel : ℕ) (vm : Vm) (va pa n : ℕ)
      → va + suc n * page_size < word
      → pa + suc n * page_size < word
      → vm_map l fuel vm pd
          ((va + page_size) % word)
          ((pa + page_size) % word)
          ((suc n * page_size + (word - page_size)) % word)
        ≡ vm_map l fuel vm pd (va + page_size) (pa + page_size) (n * page_size)
  arguments fuel vm va pa n hv hp =
      let ev : (va + page_size) % word ≡ va + page_size = omega arith in
      let ep : (pa + page_size) % word ≡ pa + page_size = omega arith in
      let es : (suc n * page_size + (word - page_size)) % word ≡ n * page_size = omega arith in
      ap
        (λ x.
          vm_map l fuel vm pd x ((pa + page_size) % word)
            ((suc n * page_size + (word - page_size)) % word))
        ev
      ∙ ap₂ (vm_map l fuel vm pd (va + page_size)) ep es

  -- `vm_map_impl` maps a range of `n` pages below the end of the address space, given more than `n`
  -- turns of fuel and a directory whose tables are apart. It maps all of them, or the first `m` if the
  -- pool of page tables is used up; every other address keeps its translation.
  pub vm_map_lem :
      (n fuel : ℕ) (vm : Vm) (va pa : ℕ)
      → n < fuel
      → va + n * page_size < word
      → pa + n * page_size < word
      → IsApart l vm.paging_next vm.pages pd
      → Maps l vm pd va pa n (vm_map l fuel vm pd va pa (n * page_size))
  vm_map_lem n zero vm va pa h hv hp v = absurd (omega arith)
  vm_map_lem zero (suc fuel) vm va pa h hv hp v =
      (vm.pages, vm.paging_next, 0, at_end fuel vm va pa, nothing l vm pd va pa 0 v (inl refl))
  vm_map_lem (suc n) (suc fuel) vm va pa h hv hp v =
      let start = unroll fuel vm va pa (suc n * page_size) (omega arith) in
      elim (ensure_table_lem l vm pd (pde_index va) is v) [
        | inl (e, full) ↦ (
          vm.pages,
          vm.paging_next,
          0,
          start ∙ ap (go_on fuel va pa (suc n * page_size) vm) e,
          nothing l vm pd va pa (suc n) v (inr full),
        )
        | inr (p1, next1, e, ens) ↦
            (let p2 = map_page l p1 pd va pa in
              let ih =
                vm_map_lem n fuel (with_pages vm p2 next1) (va + page_size) (pa + page_size)
                  (omega arith) (omega arith) (omega arith)
                  (IsApart-mapped l p1 pd va next1 pa ens.is_apart ens.present) in
              let (pages, next, m, eq, rest) = ih in
              (
                pages,
                next,
                suc m,
                start
                    ∙ ap (go_on fuel va pa (suc n * page_size) vm) e
                    ∙ arguments fuel (with_pages vm p2 next1) va pa n hv hp
                    ∙ eq,
                turn l vm pd va pa n p1 next1 ens pages next m rest,
              ))
      ]
