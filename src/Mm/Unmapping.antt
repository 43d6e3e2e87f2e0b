-- ===== src/Mm/Unmapping.antt =====
-- `vm_unmap_impl` of arch/x86/mm.c.
use punix.Base.{
  ℕ, zero, suc, ◌+◌, ◌-◌, ◌*◌, ◌/◌, ◌%◌, ◌<◌, ◌≡◌, ◌≢◌, inl, inr, refl, sym, ap, ap₂, ◌∙◌, arith,
  true, false, Bool-cases, ◌==◌, if-true, if-false, ne→==, none, some, ℕ_discrete,
}
use punix.Mm.{
  Layout, Pages, Row, PageEntry, word, page_size, pde_index, pte_index, pte_clear, pde_to_pt,
  set_entry,
}
use punix.Mm.Paging.{vm_unmap, unmap_page, translate}
use punix.Mm.Rows.{set_entry_self, set_entry_row, set_entry-cases}
use punix.Mm.Translate.{
  IsApart, SameTables-IsApart, table_of, pte_of, translate_cong, translate_not, translate-absent,
  through,
}

module _ (l : Layout) (next : ℕ) (pages : Pages) (pd va : ℕ) (v : IsApart l next pages pd) where
  abbrev i : ℕ
  i = pde_index va

  abbrev pub after : Pages
  after = unmap_page l pages pd va

  unchanged : (pages pd i).present ≡ false → after ≡ pages
  unfolding unmap_page
  unchanged h = if-false _ _ _ h

  changed :
      (pages pd i).present ≡ true
      → after
        ≡ set_entry pages (table_of l pages pd i) (pte_index va) (pte_clear (pte_of l pages pd va))
  unfolding unmap_page
  changed h = if-true _ _ _ h

  dir_row : after pd ≡ pages pd
  dir_row = elim (Bool-cases (pages pd i).present) [
    | inl h ↦
        ap (λ (p : Pages). p pd) (changed h)
        ∙ set_entry_row pages (table_of l pages pd i) (pte_index va) _ pd
            (λ e. v.not_dir i h (sym e))
    | inr h ↦ ap (λ (p : Pages). p pd) (unchanged h)
  ]

  pub IsApart-after : IsApart l next after pd
  IsApart-after =
      SameTables-IsApart l next pages after pd
        (λ j. (ap (λ (r : Row). (r j).present) dir_row, ap (λ (r : Row). (r j).frame) dir_row)) v

  -- An address of the page has no translation any more.
  pub unmapped_page : (va' : ℕ) → va' / 4096 ≡ va / 4096 → translate l after pd va' ≡ none
  unmapped_page va' e =
      let ei : pde_index va' ≡ i = omega (arith, e) in
      let ej : pte_index va' ≡ pte_index va = omega (arith, e) in
      elim (Bool-cases (pages pd i).present) [
        | inl h ↦ translate_not l after pd va' (
            ap (λ (r : Row). (after (pde_to_pt l (r (pde_index va'))) (pte_index va')).present)
              dir_row
            ∙ ap₂ (λ (j k : ℕ). (after (table_of l pages pd j) k).present) ei ej
            ∙ ap (λ (p : Pages). (p (table_of l pages pd i) (pte_index va)).present) (changed h)
            ∙ ap (λ (x : PageEntry). x.present)
                (set_entry_self pages (table_of l pages pd i) (pte_index va)
                  (pte_clear (pte_of l pages pd va))))
        | inr h ↦ translate-absent l after pd va' (
            ap (λ (r : Row). (r (pde_index va')).present) dir_row
            ∙ ap (λ (j : ℕ). (pages pd j).present) ei
            ∙ h)
      ]

  other_entry :
      (va' : ℕ)
      → va' / 4096 ≢ va / 4096
      → (pages pd (pde_index va')).present ≡ true
      → after (table_of l pages pd (pde_index va')) (pte_index va') ≡ pte_of l pages pd va'
  other_entry va' ne p = elim (Bool-cases (pages pd i).present) [
    | inl h ↦
        ap (λ (x : Pages). x (table_of l pages pd (pde_index va')) (pte_index va')) (changed h)
        ∙ set_entry-cases pages (table_of l pages pd i) (pte_index va) _
            (λ e. e ≡ pte_of l pages pd va') (table_of l pages pd (pde_index va')) (pte_index va')
            (λ eq ej.
              let ei : pde_index va' ≡ i = v.inj (pde_index va') i p h eq in
              absurd (ne (omega (arith, ei, ej))))
            refl
    | inr h ↦
        ap (λ (x : Pages). x (table_of l pages pd (pde_index va')) (pte_index va')) (unchanged h)
  ]

  pub unmapped_other :
      (va' : ℕ) → va' / 4096 ≢ va / 4096 → translate l after pd va' ≡ translate l pages pd va'
  unmapped_other va' ne =
      translate_cong l pages after pd pd va' (ap (λ (r : Row). (r (pde_index va')).present) dir_row)
        λ p. (
          ap (λ (r : Row). (r (pde_index va')).frame) dir_row,
          ap (λ (x : PageEntry). through x va') (other_entry va' ne p),
        )

-- The range has no translations any more, every other address keeps its own.
pub record Unmapped (l : Layout) (pages pages' : Pages) (next pd va n : ℕ) : Type 0 where
  pub inside : (k va' : ℕ) → k < n → va' / 4096 ≡ va / 4096 + k → translate l pages' pd va' ≡ none
  pub outside :
      (va' : ℕ)
      → ((k : ℕ) → k < n → va' / 4096 ≢ va / 4096 + k)
      → translate l pages' pd va' ≡ translate l pages pd va'
  pub is_apart : IsApart l next pages' pd

module _ (l : Layout) (next pd : ℕ) where
  turn :
      (fuel n va : ℕ) (pages : Pages)
      → va + suc n * page_size < word
      → vm_unmap l (suc fuel) pages pd va (suc n * page_size)
        ≡ vm_unmap l fuel (unmap_page l pages pd va) pd (va + page_size) (n * page_size)
  unfolding vm_unmap
  turn fuel n va pages hv =
      let ev : (va + page_size) % word ≡ va + page_size = omega arith in
      let es : (suc n * page_size + (word - page_size)) % word ≡ n * page_size = omega arith in
      if-false (suc n * page_size == 0) _ _ (ne→== (suc n * page_size) 0 (omega arith))
      ∙ ap₂ (vm_unmap l fuel (unmap_page l pages pd va) pd) ev es

  at_end : (fuel va : ℕ) (pages : Pages) → vm_unmap l (suc fuel) pages pd va 0 ≡ some pages
  unfolding vm_unmap
  at_end fuel va pages = refl

  -- `vm_unmap_impl` takes every translation from a range of `n` pages below the end of the address
  -- space, given more than `n` turns of fuel and a directory whose tables are apart; every other
  -- address keeps its translation.
  pub vm_unmap_lem :
      (n fuel va : ℕ) (pages : Pages)
      → n < fuel
      → va + n * page_size < word
      → IsApart l next pages pd
      → (pages' : Pages) × (vm_unmap l fuel pages pd va (n * page_size) ≡ some pages')
        × Unmapped l pages pages' next pd va n
  vm_unmap_lem n zero va pages h hv v = absurd (omega arith)
  vm_unmap_lem zero (suc fuel) va pages h hv v = (
    pages,
    at_end fuel va pages,
    record {
      inside = λ k va' hk. absurd (omega (arith, hk));
      outside = λ va' o. refl;
      is_apart = v;
    },
  )
  vm_unmap_lem (suc n) (suc fuel) va pages h hv v =
      let (pages', eq, u) =
        vm_unmap_lem n fuel (va + page_size) (unmap_page l pages pd va) (omega arith) (omega arith)
          (IsApart-after l next pages pd va v) in
      (
        pages',
        turn fuel n va pages hv ∙ eq,
        record {
          inside = λ k va' hk e. elim (ℕ_discrete k 0) [
            | yes z ↦
                u.outside va' (λ j hj ej. omega (arith, e, ej, z))
                ∙ unmapped_page l next pages pd va v va' (omega (arith, e, z))
            | no nz ↦ u.inside (k - 1) va' (omega (arith, hk, nz)) (omega (arith, e, nz))
          ];
          outside = λ va' o.
              u.outside va' (λ k hk e. o (suc k) (omega arith) (omega (arith, e)))
              ∙ unmapped_other l next pages pd va v va' (λ e. o 0 (omega arith) (omega (arith, e)));
          is_apart = u.is_apart;
        },
      )
