-- ===== src/Mm/Grow.antt =====
-- `vm_map_impl` of arch/x86/mm.c where a directory has no table yet for an address: a page of the pool
-- is cleared and entered.
use punix.Base.{
  ℕ, ◌+◌, ◌<◌, ◌≡◌, ◌≢◌, sym, ap, ◌∙◌, arith, true, false, update, update_self, update_ne,
  ℕ_discrete,
}
use punix.Mm.{
  Layout, Pages, Row, PageEntry, paging_pages, page_entries, pte_index, pde_index, frame_to_pa,
  kernel_pa_to_va, pt_clear, set_entry,
}
use punix.Mm.Paging.{translate}
use punix.Mm.Frames.{fresh_page, fresh-inj}
use punix.Mm.Rows.{set_entry_self, set_entry_ne, set_entry_row, pt_clear_lem}
use punix.Mm.Translate.{IsApart, table_of, translate_cong, translate_not, translate-absent, through}

abbrev pub new_entry : PageEntry → ℕ → PageEntry
new_entry e f = record e { frame = f; present = true; writable = true; user = false; ps = false }

-- A cleared table at `pt`, entered at `i` with the frame `f`.
abbrev pub with_table : Pages → ℕ → ℕ → ℕ → ℕ → Pages
with_table pages pt pd i f =
    let p = update pages pt (pt_clear page_entries (pages pt)) in
    set_entry p pd i (new_entry (p pd i) f)

module _ (pages : Pages) (pt pd i f : ℕ) (apart : pt ≢ pd) where
  abbrev pub cleared : Pages
  cleared = update pages pt (pt_clear page_entries (pages pt))

  dir_row : cleared pd ≡ pages pd
  dir_row = update_ne pages pt pd _ (λ e. apart (sym e))

  at_new : with_table pages pt pd i f pd i ≡ new_entry (pages pd i) f
  at_new =
      set_entry_self cleared pd i (new_entry (cleared pd i) f)
      ∙ ap (λ (r : Row). new_entry (r i) f) dir_row

  at_old : (j : ℕ) → j ≢ i → with_table pages pt pd i f pd j ≡ pages pd j
  at_old j ne =
      set_entry_ne cleared pd i (new_entry (cleared pd i) f) j ne ∙ ap (λ (r : Row). r j) dir_row

  at_table : with_table pages pt pd i f pt ≡ pt_clear page_entries (pages pt)
  at_table =
      set_entry_row cleared pd i (new_entry (cleared pd i) f) pt apart
      ∙ update_self pages pt (pt_clear page_entries (pages pt))

  pub at_row : (q : ℕ) → q ≢ pd → q ≢ pt → with_table pages pt pd i f q ≡ pages q
  at_row q nd nt =
      set_entry_row cleared pd i (new_entry (cleared pd i) f) q nd
      ∙ update_ne pages pt q (pt_clear page_entries (pages pt)) nt

-- The directory as it is with the new table: nothing translates otherwise, and the tables stay apart.
module _ (l : Layout) (pages : Pages) (next pd i f : ℕ) (v : IsApart l next pages pd)
    (room : next < paging_pages) (absent : (pages pd i).present ≡ false)
    (leads : kernel_pa_to_va l (frame_to_pa f) ≡ fresh_page l next) where
  abbrev pub pt : ℕ
  pt = fresh_page l next

  abbrev pub grown : Pages
  grown = with_table pages pt pd i f

  pub apart : pt ≢ pd
  apart = v.fresh_dir next (omega arith) room

  pub present_new : (grown pd i).present ≡ true
  present_new = ap (λ (e : PageEntry). e.present) (at_new pages pt pd i f apart)

  pub table_new : table_of l grown pd i ≡ pt
  table_new =
      ap (λ (e : PageEntry). kernel_pa_to_va l (frame_to_pa e.frame)) (at_new pages pt pd i f apart)
      ∙ leads

  pub entry_old : (j : ℕ) → j ≢ i → grown pd j ≡ pages pd j
  entry_old = at_old pages pt pd i f apart

  present_old : (j : ℕ) → j ≢ i → (grown pd j).present ≡ true → (pages pd j).present ≡ true
  present_old j ne h = ap (λ (e : PageEntry). e.present) (sym (entry_old j ne)) ∙ h

  table_old : (j : ℕ) → j ≢ i → table_of l grown pd j ≡ table_of l pages pd j
  table_old j ne = ap (λ (e : PageEntry). kernel_pa_to_va l (frame_to_pa e.frame)) (entry_old j ne)

  not_here : (va : ℕ) → pde_index va ≡ i → translate l grown pd va ≡ translate l pages pd va
  not_here va e =
      translate_not l grown pd va (
        ap (λ (q : ℕ). (grown q (pte_index va)).present) (ap (table_of l grown pd) e ∙ table_new)
        ∙ ap (λ (r : Row). (r (pte_index va)).present) (at_table pages pt pd i f apart)
        ∙ ap (λ (x : PageEntry). x.present)
            (pt_clear_lem page_entries (pte_index va) (pages pt) (omega arith)))
      ∙ sym (translate-absent l pages pd va (ap (λ (j : ℕ). (pages pd j).present) e ∙ absent))

  elsewhere : (va : ℕ) → pde_index va ≢ i → translate l grown pd va ≡ translate l pages pd va
  elsewhere va ne =
      let e = entry_old (pde_index va) ne in
      translate_cong l pages grown pd pd va (ap (λ (x : PageEntry). x.present) e) λ h. (
        ap (λ (x : PageEntry). x.frame) e,
        ap (λ (r : Row). through (r (pte_index va)) va)
            (at_row pages pt pd i f apart (table_of l pages pd (pde_index va))
              (v.not_dir (pde_index va) h)
              (v.fresh_table next (pde_index va) (omega arith) room h)),
      )

  pub same_translation : (va : ℕ) → translate l grown pd va ≡ translate l pages pd va
  same_translation va = elim (ℕ_discrete (pde_index va) i) [
    | yes e ↦ not_here va e
    | no ne ↦ elsewhere va ne
  ]

  no_clash :
      (j : ℕ) → j ≢ i → (grown pd j).present ≡ true → table_of l grown pd j ≢ table_of l grown pd i
  no_clash j ne h e =
      v.fresh_table next j (omega arith) room (present_old j ne h)
        (sym (table_old j ne) ∙ e ∙ table_new)

  pub IsApart-grown : IsApart l (next + 1) grown pd
  IsApart-grown = record {
    inj = λ j k hj hk e. elim (ℕ_discrete j i) [
      | yes ej ↦ elim (ℕ_discrete k i) [
        | yes ek ↦ ej ∙ sym ek
        | no nk ↦ absurd (no_clash k nk hk (sym e ∙ ap (table_of l grown pd) ej))
      ]
      | no nj ↦ elim (ℕ_discrete k i) [
        | yes ek ↦ absurd (no_clash j nj hj (e ∙ ap (table_of l grown pd) ek))
        | no nk ↦
            v.inj j k (present_old j nj hj) (present_old k nk hk)
              (sym (table_old j nj) ∙ e ∙ table_old k nk)
      ]
    ];
    not_dir = λ j h e. elim (ℕ_discrete j i) [
      | yes ej ↦ apart (sym table_new ∙ ap (table_of l grown pd) (sym ej) ∙ e)
      | no nj ↦ v.not_dir j (present_old j nj h) (sym (table_old j nj) ∙ e)
    ];
    fresh_dir = λ k low high. v.fresh_dir k (omega arith) high;
    fresh_table = λ k j low high h e. elim (ℕ_discrete j i) [
      | yes ej ↦
          (let eq : next ≡ k =
              fresh-inj l next k (sym table_new ∙ ap (table_of l grown pd) (sym ej) ∙ e) in
            absurd (omega arith))
      | no nj ↦ v.fresh_table k j (omega arith) high (present_old j nj h) (sym (table_old j nj) ∙ e)
    ];
  }
