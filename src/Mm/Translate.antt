-- ===== src/Mm/Translate.antt =====
-- What the translation of an address depends on, and when a directory keeps its tables apart.
use punix.Base.{
  ℕ, ◌-◌, ◌<◌, ◌≤◌, ◌≡◌, ◌≢◌, sym, ap, ◌∙◌, bit_and, bit_or, true, false, inl, inr, Bool-cases,
  if-true, if-false, if◌then◌else◌, Option, none, some,
}
use punix.Mm.{
  Layout, Pages, PageEntry, page_size, paging_pages, pte_index, pde_index, frame_to_pa,
  kernel_pa_to_va, pde_to_pt,
}
use punix.Mm.Paging.{translate}
use punix.Mm.Frames.{fresh_page}

-- The physical address of `va` in the page of a frame.
abbrev pub address : ℕ → ℕ → ℕ
address frame va = bit_or (frame_to_pa frame) (bit_and va (page_size - 1))

abbrev pub table_of : Layout → Pages → ℕ → ℕ → ℕ
table_of l pages pd j = pde_to_pt l (pages pd j)

abbrev pub pte_of : Layout → Pages → ℕ → ℕ → PageEntry
pte_of l pages pd va = pages (table_of l pages pd (pde_index va)) (pte_index va)

pub through : PageEntry → ℕ → Option ℕ
through pte va = if pte.present then some (address pte.frame va) else none

pub translate-absent :
    (l : Layout) (pages : Pages) (pd va : ℕ)
    → (pages pd (pde_index va)).present ≡ false
    → translate l pages pd va ≡ none
unfolding translate
translate-absent l pages pd va h = if-false _ _ _ h

translate-present :
    (l : Layout) (pages : Pages) (pd va : ℕ)
    → (pages pd (pde_index va)).present ≡ true
    → translate l pages pd va ≡ through (pte_of l pages pd va) va
unfolding translate through
translate-present l pages pd va h = if-true _ _ _ h

pub translate_to :
    (l : Layout) (pages : Pages) (pd va : ℕ)
    → (pages pd (pde_index va)).present ≡ true
    → (pte_of l pages pd va).present ≡ true
    → translate l pages pd va ≡ some (address (pte_of l pages pd va).frame va)
unfolding through
translate_to l pages pd va h k = translate-present l pages pd va h ∙ if-true _ _ _ k

pub translate_not :
    (l : Layout) (pages : Pages) (pd va : ℕ)
    → (pte_of l pages pd va).present ≡ false
    → translate l pages pd va ≡ none
unfolding through
translate_not l pages pd va k = elim (Bool-cases (pages pd (pde_index va)).present) [
  | inl h ↦ translate-present l pages pd va h ∙ if-false _ _ _ k
  | inr h ↦ translate-absent l pages pd va h
]

pub translate_cong :
    (l : Layout) (pages pages' : Pages) (pd pd' va : ℕ)
    → (pages' pd' (pde_index va)).present ≡ (pages pd (pde_index va)).present
    → ((pages pd (pde_index va)).present ≡ true
        → ((pages' pd' (pde_index va)).frame ≡ (pages pd (pde_index va)).frame)
          × (through (pages' (table_of l pages pd (pde_index va)) (pte_index va)) va
              ≡ through (pte_of l pages pd va) va))
    → translate l pages' pd' va ≡ translate l pages pd va
translate_cong l pages pages' pd pd' va same entry =
    elim (Bool-cases (pages pd (pde_index va)).present) [
      | inl h ↦
          translate-present l pages' pd' va (same ∙ h)
          ∙ ap (λ (f : ℕ). through (pages' (kernel_pa_to_va l (frame_to_pa f)) (pte_index va)) va)
              (entry h).0
          ∙ (entry h).1
          ∙ sym (translate-present l pages pd va h)
      | inr h ↦ translate-absent l pages' pd' va (same ∙ h) ∙ sym (translate-absent l pages pd va h)
    ]

-- The entries of a directory lead to the same tables.
abbrev pub SameTables : Pages → Pages → ℕ → Type 0
SameTables pages pages' pd =
    (j : ℕ)
    → ((pages' pd j).present ≡ (pages pd j).present) × ((pages' pd j).frame ≡ (pages pd j).frame)

-- No two entries of the directory lead to one table, none leads to the directory, and the pages of
-- the pool from `next` on are neither the directory nor one of its tables.
pub record IsApart (l : Layout) (next : ℕ) (pages : Pages) (pd : ℕ) : Type 0 where
  pub inj :
      (i j : ℕ)
      → (pages pd i).present ≡ true
      → (pages pd j).present ≡ true
      → table_of l pages pd i ≡ table_of l pages pd j
      → i ≡ j
  pub not_dir : (i : ℕ) → (pages pd i).present ≡ true → table_of l pages pd i ≢ pd
  pub fresh_dir : (k : ℕ) → next ≤ k → k < paging_pages → fresh_page l k ≢ pd
  pub fresh_table :
      (k i : ℕ)
      → next ≤ k
      → k < paging_pages
      → (pages pd i).present ≡ true
      → table_of l pages pd i ≢ fresh_page l k

pub SameTables-table_of :
    (l : Layout) (pages pages' : Pages) (pd : ℕ)
    → SameTables pages pages' pd
    → (i : ℕ) → table_of l pages pd i ≡ table_of l pages' pd i
SameTables-table_of l pages pages' pd same i =
    ap (λ (f : ℕ). kernel_pa_to_va l (frame_to_pa f)) (sym (same i).1)

pub SameTables-IsApart :
    (l : Layout) (next : ℕ) (pages pages' : Pages) (pd : ℕ)
    → SameTables pages pages' pd
    → IsApart l next pages pd
    → IsApart l next pages' pd
SameTables-IsApart l next pages pages' pd same v =
    let to = SameTables-table_of l pages pages' pd same in
    record {
      inj = λ i j hi hj e.
          v.inj i j (sym (same i).0 ∙ hi) (sym (same j).0 ∙ hj) (to i ∙ e ∙ sym (to j));
      not_dir = λ i hi e. v.not_dir i (sym (same i).0 ∙ hi) (to i ∙ e);
      fresh_dir = v.fresh_dir;
      fresh_table =
          λ k i low high hi e. v.fresh_table k i low high (sym (same i).0 ∙ hi) (to i ∙ e);
    }

-- The table is one of the pages of the pool from `next` on.
abbrev pub IsFresh : Layout → ℕ → ℕ → Type 0
IsFresh l next t = (k : ℕ) × (next ≤ k) × (k < paging_pages) × (t ≡ fresh_page l k)
