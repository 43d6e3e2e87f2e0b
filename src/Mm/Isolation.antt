-- ===== src/Mm/Isolation.antt =====
-- Mappings of arch/x86/mm.c and the directories of other address spaces.
use punix.Base.{ℕ, ◌+◌, ◌*◌, ◌/◌, ◌<◌, ◌≤◌, ◌≡◌, ◌≢◌, inl, inr, ap, ◌∙◌, arith, true, some}
use punix.Mm.{Vm, Layout, Pages, Row, word, page_size, paging_pages, pde_index, pte_index}
use punix.Mm.Paging.{vm_map, translate}
use punix.Mm.Frames.{IsLayout, fresh_page}
use punix.Mm.Translate.{IsApart, table_of, translate_cong, through}
use punix.Mm.Ensure.{with_pages}
use punix.Mm.Turn.{Mapped}
use punix.Mm.Mapping.{vm_map_lem}

-- A page that is not the directory `pd`, not free, and not a table of the range.
pub record IsForeign (l : Layout) (vm : Vm) (pd va n q : ℕ) : Type 0 where
  pub dir : q ≢ pd
  pub taken : (k : ℕ) → vm.paging_next ≤ k → k < paging_pages → q ≢ fresh_page l k
  pub table :
      (k : ℕ)
      → k < n
      → (vm.pages pd ((va / 4096 + k) / 1024)).present ≡ true
      → q ≢ table_of l vm.pages pd ((va / 4096 + k) / 1024)

-- A directory all whose pages are foreign.
pub record IsOtherSpace (l : Layout) (vm : Vm) (pd va n other : ℕ) : Type 0 where
  pub itself : IsForeign l vm pd va n other
  pub tables :
      (j : ℕ)
      → (vm.pages other j).present ≡ true
      → IsForeign l vm pd va n (table_of l vm.pages other j)

foreign_row :
    (l : Layout) (vm : Vm) (pd va pa n : ℕ) (pages : Pages) (next m q : ℕ)
    → Mapped l vm pd va pa n pages next m
    → IsForeign l vm pd va n q
    → pages q ≡ vm.pages q
foreign_row l vm pd va pa n pages next m q r f = r.rows q f.dir f.taken λ k h eq.
    elim (r.origin k h) [
      | inl p ↦ f.table k (omega (arith, h, r.upto)) p (eq ∙ (r.stays _ p).1)
      | inr (j, low, high, e) ↦ f.taken j low high (eq ∙ e)
    ]

-- `vm_map_impl` in one address space changes no translation of another that shares none of the
-- tables of the range.
pub vm_map-others :
    (l : Layout) (vm : Vm) (pd va pa n fuel other : ℕ)
    → IsLayout l
    → n < fuel
    → va + n * page_size < word
    → pa + n * page_size < word
    → IsApart l vm.paging_next vm.pages pd
    → IsOtherSpace l vm pd va n other
    → (vm' : Vm) × (vm_map l fuel vm pd va pa (n * page_size) ≡ some vm')
      × ((va' : ℕ) → translate l vm'.pages other va' ≡ translate l vm.pages other va')
vm_map-others l vm pd va pa n fuel other is h hv hp v o =
    let (pages, next, m, eq, r) = vm_map_lem l is pd n fuel vm va pa h hv hp v in
    let same : (q : ℕ) → IsForeign l vm pd va n q → pages q ≡ vm.pages q =
      λ q. foreign_row l vm pd va pa n pages next m q r in
    let dir = same other o.itself in
    (
      with_pages vm pages next,
      eq,
      λ va'.
          translate_cong l vm.pages pages other other va'
            (ap (λ (row : Row). (row (pde_index va')).present) dir)
            λ p. (
              ap (λ (row : Row). (row (pde_index va')).frame) dir,
              ap (λ (row : Row). through (row (pte_index va')) va')
                  (same (table_of l vm.pages other (pde_index va')) (o.tables (pde_index va') p)),
            ),
    )
