-- ===== src/Mm/Enter.antt =====
-- The second half of the body of `vm_map_impl` of arch/x86/mm.c: one page is entered in its table.
use punix.Base.{
  ℕ, ◌/◌, ◌≡◌, ◌≢◌, refl, sym, ap, ◌∙◌, arith, true, ltb, if◌then◌else◌, some, both_branches,
}
use punix.Mm.{Layout, Pages, Row, PageEntry, pte_index, pde_index, frame_bits, pte_set, set_entry}
use punix.Mm.Paging.{map_page, translate}
use punix.Mm.Rows.{set_entry_self, set_entry_row, set_entry-cases}
use punix.Mm.Translate.{
  IsApart, SameTables, SameTables-IsApart, SameTables-table_of, table_of, pte_of, translate_cong,
  translate_to, address, through,
}

module _ (l : Layout) (pages : Pages) (pd va : ℕ) where
  abbrev i : ℕ
  i = pde_index va

  abbrev pub marked : Pages
  marked =
      if ltb va l.va_base then set_entry pages pd i (record (pages pd i) { user = true }) else pages

  -- `pde->user = 1` leaves the translation alone.
  SameTables-marked : SameTables pages marked pd
  SameTables-marked j =
      both_branches
        (λ (p : Pages).
          ((p pd j).present ≡ (pages pd j).present) × ((p pd j).frame ≡ (pages pd j).frame))
        (ltb va l.va_base)
        (set_entry-cases pages pd i (record (pages pd i) { user = true })
          (λ e. (e.present ≡ (pages pd j).present) × (e.frame ≡ (pages pd j).frame)) pd j
          (λ ed ej.
            (ap (λ k. (pages pd k).present) (sym ej), ap (λ k. (pages pd k).frame) (sym ej)))
          (refl, refl))
        (refl, refl)

  marked_rows : (q : ℕ) → q ≢ pd → marked q ≡ pages q
  marked_rows q ne =
      both_branches (λ (p : Pages). p q ≡ pages q) (ltb va l.va_base)
        (set_entry_row pages pd i (record (pages pd i) { user = true }) q ne) refl

  module _ (next pa : ℕ) (v : IsApart l next pages pd) (here : (pages pd i).present ≡ true) where
    abbrev pub mapped : Pages
    mapped = map_page l pages pd va pa

    abbrev pt : ℕ
    pt = table_of l pages pd i

    abbrev entry : PageEntry
    entry = pte_set (marked pt (pte_index va)) pa true true (ltb va l.va_base)

    row_dir : mapped pd ≡ marked pd
    unfolding map_page
    row_dir = set_entry_row marked pt (pte_index va) entry pd (λ e. v.not_dir i here (sym e))

    pub SameTables-mapped : SameTables pages mapped pd
    SameTables-mapped j = (
      ap (λ (r : Row). (r j).present) row_dir ∙ (SameTables-marked j).0,
      ap (λ (r : Row). (r j).frame) row_dir ∙ (SameTables-marked j).1,
    )

    pub IsApart-mapped : IsApart l next mapped pd
    IsApart-mapped = SameTables-IsApart l next pages mapped pd SameTables-mapped v

    at_entry : mapped pt (pte_index va) ≡ entry
    unfolding map_page
    at_entry = set_entry_self marked pt (pte_index va) entry

    at_other : (q j : ℕ) → q ≢ pd → (q ≡ pt → j ≢ pte_index va) → mapped q j ≡ pages q j
    unfolding map_page
    at_other q j nd other =
        set_entry-cases marked pt (pte_index va) entry (λ e. e ≡ pages q j) q j
          (λ eq ej. absurd (other eq ej)) (ap (λ (r : Row). r j) (marked_rows q nd))

    pub mapped_rows : (q : ℕ) → q ≢ pd → q ≢ pt → mapped q ≡ pages q
    unfolding map_page
    mapped_rows q nd nt = set_entry_row marked pt (pte_index va) entry q nt ∙ marked_rows q nd

    -- An address of the page leads to the frame.
    pub translate_page :
        (va' : ℕ)
        → va' / 4096 ≡ va / 4096
        → translate l mapped pd va' ≡ some (address (frame_bits pa) va')
    translate_page va' e =
        let ei : pde_index va' ≡ i = omega (arith, e) in
        let ej : pte_index va' ≡ pte_index va = omega (arith, e) in
        let to : pte_of l mapped pd va' ≡ entry =
          ap (λ (k : ℕ). mapped (table_of l mapped pd k) (pte_index va')) ei
          ∙ ap (λ (k : ℕ). mapped (table_of l mapped pd i) k) ej
          ∙ ap (λ (q : ℕ). mapped q (pte_index va))
              (sym (SameTables-table_of l pages mapped pd SameTables-mapped i))
          ∙ at_entry in
        translate_to l mapped pd va'
          (ap (λ (k : ℕ). (mapped pd k).present) ei ∙ (SameTables-mapped i).0 ∙ here)
          (ap (λ (x : PageEntry). x.present) to)
        ∙ ap (λ (x : PageEntry). some (address x.frame va')) to

    -- Every other address keeps its translation.
    pub translate_other :
        (va' : ℕ) → va' / 4096 ≢ va / 4096 → translate l mapped pd va' ≡ translate l pages pd va'
    translate_other va' ne =
        translate_cong l pages mapped pd pd va' (SameTables-mapped (pde_index va')).0 λ h. (
          (SameTables-mapped (pde_index va')).1,
          ap (λ (x : PageEntry). through x va')
              (at_other (table_of l pages pd (pde_index va')) (pte_index va')
                (v.not_dir (pde_index va') h)
                (λ eq ej.
                  let ei : pde_index va' ≡ i = v.inj (pde_index va') i h here eq in
                  ne (omega (arith, ei, ej)))),
        )
