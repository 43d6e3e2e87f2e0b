-- ===== src/Mm/Inherit.antt =====
-- The directory that `mm_fork_kernel` of arch/x86/mm.c makes, next to the kernel's.
use punix.Base.{ℕ, ◌+◌, ◌<◌, ◌≤◌, ◌≡◌, ◌≢◌, inl, inr, sym, ap, ◌∙◌, arith, true, false, Bool-cases}
use punix.Mm.{
  Layout, Pages, Row, PageEntry, page_entries, paging_pages, pde_index, pte_index, pde_to_pt,
}
use punix.Mm.Paging.{translate}
use punix.Mm.Regions.{copy_dir, clear_dir}
use punix.Mm.Frames.{fresh_page, fresh-inj}
use punix.Mm.Translate.{IsApart, table_of, translate_cong, through}
use punix.Mm.Copies.{forked_rows, forked_present, forked_absent}

-- The new directory translates as the kernel's does, and keeps its tables apart.
module _ (l : Layout) (pages : Pages) (next k : ℕ) (v : IsApart l next pages k)
    (room : next < paging_pages) (end_k : (j : ℕ) → page_entries ≤ j → (pages k j).present ≡ false)
    (end_pd : (j : ℕ) → page_entries ≤ j → (pages (fresh_page l next) j).present ≡ false) where
  abbrev pub pd : ℕ
  pd = fresh_page l next

  ne : k ≢ pd
  ne e = v.fresh_dir next (omega arith) room (sym e)

  abbrev pub new : Pages
  new = copy_dir page_entries (clear_dir page_entries pages pd) k pd

  new_present : (j : ℕ) → (pages k j).present ≡ true → new pd j ≡ pages k j
  new_present = forked_present k pd ne page_entries pages end_k end_pd

  same_present : (j : ℕ) → (new pd j).present ≡ (pages k j).present
  same_present j = elim (Bool-cases (pages k j).present) [
    | inl p ↦ ap (λ (x : PageEntry). x.present) (new_present j p)
    | inr p ↦ forked_absent k pd ne page_entries pages end_k end_pd j p ∙ sym p
  ]

  rows : (q : ℕ) → q ≢ pd → new q ≡ pages q
  rows = forked_rows k pd ne page_entries pages end_k end_pd

  not_new : (j : ℕ) → (pages k j).present ≡ true → table_of l pages k j ≢ pd
  not_new j p = v.fresh_table next j (omega arith) room p

  pub inherited : (va : ℕ) → translate l new pd va ≡ translate l pages k va
  inherited va = translate_cong l pages new k pd va (same_present (pde_index va)) λ p. (
    ap (λ (x : PageEntry). x.frame) (new_present (pde_index va) p),
    ap (λ (r : Row). through (r (pte_index va)) va)
        (rows (table_of l pages k (pde_index va)) (not_new (pde_index va) p)),
  )

  pub kernel_kept : (va : ℕ) → translate l new k va ≡ translate l pages k va
  kernel_kept va =
      translate_cong l pages new k k va (ap (λ (r : Row). (r (pde_index va)).present) (rows k ne))
        λ p. (
          ap (λ (r : Row). (r (pde_index va)).frame) (rows k ne),
          ap (λ (r : Row). through (r (pte_index va)) va)
              (rows (table_of l pages k (pde_index va)) (not_new (pde_index va) p)),
        )

  back : (j : ℕ) → (new pd j).present ≡ true → (pages k j).present ≡ true
  back j p = sym (same_present j) ∙ p

  table : (j : ℕ) → (new pd j).present ≡ true → table_of l new pd j ≡ table_of l pages k j
  table j p = ap (pde_to_pt l) (new_present j (back j p))

  pub IsApart-new : IsApart l (next + 1) new pd
  IsApart-new = record {
    inj = λ i j hi hj e. v.inj i j (back i hi) (back j hj) (sym (table i hi) ∙ e ∙ table j hj);
    not_dir = λ j h e. not_new j (back j h) (sym (table j h) ∙ e);
    fresh_dir =
        λ n low high e. let eq : n ≡ next = fresh-inj l n next e in absurd (omega (arith, low, eq));
    fresh_table = λ n j low high h e.
        v.fresh_table n j (omega (arith, low)) high (back j h) (sym (table j h) ∙ e);
  }
