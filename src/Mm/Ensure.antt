-- ===== src/Mm/Ensure.antt =====
-- The first half of the body of `vm_map_impl` of arch/x86/mm.c: the directory gets a table, or the pool
-- is used up.
use punix.Base.{
  ℕ, ◌+◌, ◌<◌, ◌≤◌, ◌≡◌, ◌≢◌, ◌⊎◌, inl, inr, refl, ap, ◌∙◌, arith, true, false, Bool-cases, if-true,
  if-false, leb→le, leb→lt, ne→==, leb, ◌==◌, none, some,
}
use punix.Mm.{
  Vm, Layout, Pages, paging_pages, frame_bits, frame_to_pa, kernel_pa_to_va, kernel_va_to_pa,
}
use punix.Mm.Paging.{add_table, ensure_table, translate}
use punix.Mm.Frames.{IsLayout, fresh_page, fresh-ne, pa_to_va-va_to_pa, table-fresh}
use punix.Mm.Translate.{IsApart, IsFresh, table_of}
use punix.Mm.Grow.{
  with_table, same_translation, IsApart-grown, present_new, entry_old, table_new, at_row,
}

-- What the turn needs: the entry is present, and nothing that could be translated has changed.
pub record Ensured (l : Layout) (vm : Vm) (pd i : ℕ) (pages : Pages) (next : ℕ) : Type 0 where
  pub present : (pages pd i).present ≡ true
  pub same : (va : ℕ) → translate l pages pd va ≡ translate l vm.pages pd va
  pub is_apart : IsApart l next pages pd
  pub grows : vm.paging_next ≤ next
  pub stays : (j : ℕ) → (vm.pages pd j).present ≡ true → pages pd j ≡ vm.pages pd j
  pub others : (j : ℕ) → j ≢ i → pages pd j ≡ vm.pages pd j
  pub origin : ((vm.pages pd i).present ≡ true) ⊎ IsFresh l vm.paging_next (table_of l pages pd i)
  pub rows :
      (q : ℕ)
      → q ≢ pd
      → ((k : ℕ) → vm.paging_next ≤ k → k < paging_pages → q ≢ fresh_page l k)
      → pages q ≡ vm.pages q

abbrev pub with_pages : Vm → Pages → ℕ → Vm
with_pages vm pages next = record vm { pages = pages; paging_next = next }

-- Either the pool is used up and nothing changes, or the entry leads to a table.
abbrev pub Ensures : Layout → Vm → ℕ → ℕ → Type 0
Ensures l vm pd i =
    ((ensure_table l vm pd i ≡ none) × (paging_pages ≤ vm.paging_next))
    ⊎ ((pages : Pages) × (next : ℕ) × (ensure_table l vm pd i ≡ some (with_pages vm pages next))
        × Ensured l vm pd i pages next)

module _ (l : Layout) (vm : Vm) (pd i : ℕ) (is : IsLayout l)
    (v : IsApart l vm.paging_next vm.pages pd) where
  ensured_before : (vm.pages pd i).present ≡ true → Ensures l vm pd i
  unfolding ensure_table
  ensured_before h = inr (
    vm.pages,
    vm.paging_next,
    if-true _ _ _ h,
    record {
      present = h;
      same = λ va. refl;
      is_apart = v;
      stays = λ j hj. refl;
      others = λ j nj. refl;
      origin = inl h;
      grows = omega arith;
      rows = λ q nd nf. refl;
    },
  )

  exhausted :
      (vm.pages pd i).present ≡ false
      → paging_pages ≤ vm.paging_next
      → ensure_table l vm pd i ≡ none
  unfolding ensure_table
  exhausted h full =
      if-false _ _ _ h
      ∙ ap (add_table l pd i) (if-true (leb paging_pages vm.paging_next) _ _ (ground arith))

  module _ (h : (vm.pages pd i).present ≡ false) (room : vm.paging_next < paging_pages) where
    abbrev pa : ℕ
    pa = kernel_va_to_pa l (fresh_page l vm.paging_next)

    abbrev grown : ℕ → Vm
    grown pt = with_pages vm (with_table vm.pages pt pd i (frame_bits pa)) (vm.paging_next + 1)

    gives : ensure_table l vm pd i ≡ some (grown (fresh_page l vm.paging_next))
    unfolding ensure_table
    gives =
        if-false _ _ _ h
        ∙ ap (add_table l pd i) (if-false (leb paging_pages vm.paging_next) _ _ (ground arith))
        ∙ if-false (pa == 0) _ _ (ne→== pa 0 (fresh-ne l is vm.paging_next room))
        ∙ ap (λ pt. some (grown pt)) (pa_to_va-va_to_pa l is vm.paging_next room)

    leads : kernel_pa_to_va l (frame_to_pa (frame_bits pa)) ≡ fresh_page l vm.paging_next
    leads = table-fresh l is vm.paging_next room

    ensured_now : Ensures l vm pd i
    ensured_now = inr (
      with_table vm.pages (fresh_page l vm.paging_next) pd i (frame_bits pa),
      vm.paging_next + 1,
      gives,
      record {
        present = present_new l vm.pages vm.paging_next pd i (frame_bits pa) v room h leads;
        same = same_translation l vm.pages vm.paging_next pd i (frame_bits pa) v room h leads;
        is_apart = IsApart-grown l vm.pages vm.paging_next pd i (frame_bits pa) v room h leads;
        grows = omega arith;
        stays = λ j hj.
            entry_old l vm.pages vm.paging_next pd i (frame_bits pa) v room h leads j
              (λ e. cc (ap (λ k. (vm.pages pd k).present) e));
        others = entry_old l vm.pages vm.paging_next pd i (frame_bits pa) v room h leads;
        origin = inr (
          vm.paging_next,
          omega arith,
          room,
          table_new l vm.pages vm.paging_next pd i (frame_bits pa) v room h leads,
        );
        rows = λ q nd nf.
            at_row vm.pages (fresh_page l vm.paging_next) pd i (frame_bits pa)
              (v.fresh_dir vm.paging_next (omega arith) room) q nd
              (nf vm.paging_next (omega arith) room);
      },
    )

  pub ensure_table_lem : Ensures l vm pd i
  ensure_table_lem = elim (Bool-cases (vm.pages pd i).present) [
    | inl h ↦ ensured_before h
    | inr h ↦ elim (Bool-cases (leb paging_pages vm.paging_next)) [
      | inl full ↦
          (let le : paging_pages ≤ vm.paging_next = leb→le paging_pages vm.paging_next full in
            inl (exhausted h le, le))
      | inr more ↦ ensured_now h (leb→lt paging_pages vm.paging_next more)
    ]
  ]
