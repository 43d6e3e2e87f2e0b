-- ===== src/Mm/Turn.antt =====
-- One turn of the loop of `vm_map_impl` of arch/x86/mm.c and the turns behind it.
use punix.Base.{
  ℕ, zero, suc, ◌+◌, ◌*◌, ◌/◌, ◌<◌, ◌≤◌, ◌≡◌, ◌≢◌, ◌⊎◌, inl, inr, refl, sym, ap, subst, ◌∙◌, arith,
  true, Option, some, ℕ_discrete,
}
use punix.Mm.{Vm, Layout, Pages, page_size, paging_pages, pde_index, pde_to_pt, frame_bits}
use punix.Mm.Paging.{map_page, translate}
use punix.Mm.Frames.{fresh_page}
use punix.Mm.Translate.{IsApart, IsFresh, table_of, address, SameTables-table_of}
use punix.Mm.Ensure.{Ensured, with_pages}
use punix.Mm.Enter.{SameTables-mapped, mapped_rows, translate_page, translate_other}

-- The first `m` of `n` pages are mapped, all of them unless the pool is used up; no other address
-- translates otherwise, and only the directory, new tables and tables of the range are written.
pub record Mapped (l : Layout) (vm : Vm) (pd va pa n : ℕ) (pages : Pages) (next m : ℕ)
    : Type 0 where
  pub upto : m ≤ n
  pub complete : (m ≡ n) ⊎ (paging_pages ≤ next)
  pub inside :
      (k va' : ℕ)
      → k < m
      → va' / 4096 ≡ va / 4096 + k
      → translate l pages pd va' ≡ some (address (frame_bits (pa + k * page_size)) va')
  pub outside :
      (va' : ℕ)
      → ((k : ℕ) → k < m → va' / 4096 ≢ va / 4096 + k)
      → translate l pages pd va' ≡ translate l vm.pages pd va'
  pub is_apart : IsApart l next pages pd
  pub grows : vm.paging_next ≤ next
  pub stays :
      (j : ℕ)
      → (vm.pages pd j).present ≡ true
      → ((pages pd j).present ≡ true) × (table_of l pages pd j ≡ table_of l vm.pages pd j)
  pub origin :
      (k : ℕ)
      → k < m
      → ((vm.pages pd ((va / 4096 + k) / 1024)).present ≡ true)
        ⊎ IsFresh l vm.paging_next (table_of l pages pd ((va / 4096 + k) / 1024))
  pub rows :
      (q : ℕ)
      → q ≢ pd
      → ((k : ℕ) → vm.paging_next ≤ k → k < paging_pages → q ≢ fresh_page l k)
      → ((k : ℕ) → k < m → q ≢ table_of l pages pd ((va / 4096 + k) / 1024))
      → pages q ≡ vm.pages q

abbrev pub Maps : Layout → Vm → ℕ → ℕ → ℕ → ℕ → Option Vm → Type 0
Maps l vm pd va pa n result =
    (pages : Pages) × (next : ℕ) × (m : ℕ) × (result ≡ some (with_pages vm pages next))
    × Mapped l vm pd va pa n pages next m

pub nothing :
    (l : Layout) (vm : Vm) (pd va pa n : ℕ)
    → IsApart l vm.paging_next vm.pages pd
    → (0 ≡ n) ⊎ (paging_pages ≤ vm.paging_next)
    → Mapped l vm pd va pa n vm.pages vm.paging_next 0
nothing l vm pd va pa n v c = record {
  upto = omega arith;
  complete = c;
  inside = λ k va' h. absurd (omega (arith, h));
  outside = λ va' h. refl;
  is_apart = v;
  grows = omega arith;
  stays = λ j h. (h, refl);
  origin = λ k h. absurd (omega (arith, h));
  rows = λ q nd nf nt. refl;
}

-- One turn and the turns behind it.
module _ (l : Layout) (vm : Vm) (pd va pa n : ℕ) (p1 : Pages) (next1 : ℕ)
    (e : Ensured l vm pd (pde_index va) p1 next1) where
  abbrev p2 : Pages
  p2 = map_page l p1 pd va pa

  abbrev vm2 : Vm
  vm2 = with_pages vm p2 next1

  module _ (pages : Pages) (next m : ℕ)
      (rest : Mapped l vm2 pd (va + page_size) (pa + page_size) n pages next m) where
    first :
        (va' : ℕ)
        → va' / 4096 ≡ va / 4096
        → translate l pages pd va' ≡ some (address (frame_bits pa) va')
    first va' h =
        rest.outside va' (λ k hk ek. omega (arith, h, ek))
        ∙ translate_page l p1 pd va next1 pa e.is_apart e.present va' h

    inside :
        (k va' : ℕ)
        → k < suc m
        → va' / 4096 ≡ va / 4096 + k
        → translate l pages pd va' ≡ some (address (frame_bits (pa + k * page_size)) va')
    inside zero va' hk h =
        let same : pa ≡ pa + 0 * page_size = omega arith in
        first va' (omega (arith, h)) ∙ ap (λ (x : ℕ). some (address (frame_bits x) va')) same
    inside (suc k) va' hk h =
        let same : pa + page_size + k * page_size ≡ pa + suc k * page_size = omega arith in
        rest.inside k va' (omega arith) (omega (arith, h))
        ∙ ap (λ (x : ℕ). some (address (frame_bits x) va')) same

    outside :
        (va' : ℕ)
        → ((k : ℕ) → k < suc m → va' / 4096 ≢ va / 4096 + k)
        → translate l pages pd va' ≡ translate l vm.pages pd va'
    outside va' h =
        rest.outside va' (λ k hk ek. h (suc k) (omega arith) (omega (arith, ek)))
        ∙ translate_other l p1 pd va next1 pa e.is_apart e.present va'
            (λ q. h 0 (omega arith) (omega (arith, q)))
        ∙ e.same va'

    same_tables :
        (j : ℕ)
        → (p1 pd j).present ≡ true
        → ((pages pd j).present ≡ true) × (table_of l pages pd j ≡ table_of l p1 pd j)
    same_tables j h =
        let s = SameTables-mapped l p1 pd va next1 pa e.is_apart e.present in
        let r = rest.stays j ((s j).0 ∙ h) in (r.0, r.1 ∙ sym (SameTables-table_of l p1 p2 pd s j))

    stays :
        (j : ℕ)
        → (vm.pages pd j).present ≡ true
        → ((pages pd j).present ≡ true) × (table_of l pages pd j ≡ table_of l vm.pages pd j)
    stays j h =
        let s = e.stays j h in
        let r = same_tables j (ap (λ x. x.present) s ∙ h) in (r.0, r.1 ∙ ap (pde_to_pt l) s)

    head : (va / 4096 + 0) / 1024 ≡ pde_index va
    head = omega arith

    here : table_of l pages pd ((va / 4096 + 0) / 1024) ≡ table_of l p1 pd (pde_index va)
    here = ap (table_of l pages pd) head ∙ (same_tables (pde_index va) e.present).1

    abbrev From : ℕ → Type 0
    From j = ((vm.pages pd j).present ≡ true) ⊎ IsFresh l vm.paging_next (table_of l pages pd j)

    origin_head : From (pde_index va)
    origin_head = elim e.origin [
      | inl h ↦ inl h
      | inr (k, low, high, eq) ↦ inr (k, low, high, (same_tables (pde_index va) e.present).1 ∙ eq)
    ]

    origin : (k : ℕ) → k < suc m → From ((va / 4096 + k) / 1024)
    origin zero h = subst From (sym head) origin_head
    origin (suc k) h =
        let step : ((va + page_size) / 4096 + k) / 1024 ≡ (va / 4096 + suc k) / 1024 =
          omega arith in
        subst From step (elim (rest.origin k (omega arith)) [
          | inl p ↦ elim (ℕ_discrete (((va + page_size) / 4096 + k) / 1024) (pde_index va)) [
            | yes eq ↦ subst From (sym eq) origin_head
            | no ne ↦ inl (
                ap (λ x. x.present) (sym (e.others _ ne))
                ∙ sym (SameTables-mapped l p1 pd va next1 pa e.is_apart e.present _).0
                ∙ p)
          ]
          | inr (j, low, high, eq) ↦ inr (j, omega (arith, low, e.grows), high, eq)
        ])

    rows :
        (q : ℕ)
        → q ≢ pd
        → ((k : ℕ) → vm.paging_next ≤ k → k < paging_pages → q ≢ fresh_page l k)
        → ((k : ℕ) → k < suc m → q ≢ table_of l pages pd ((va / 4096 + k) / 1024))
        → pages q ≡ vm.pages q
    rows q nd nf nt =
        rest.rows q nd (λ k low high. nf k (omega (arith, e.grows)) high)
          (λ k hk eq.
            let step : ((va + page_size) / 4096 + k) / 1024 ≡ (va / 4096 + suc k) / 1024 =
              omega arith in
            nt (suc k) (omega arith) (eq ∙ ap (table_of l pages pd) step))
        ∙ mapped_rows l p1 pd va next1 pa e.is_apart e.present q nd
            (λ eq. nt 0 (omega arith) (eq ∙ sym here))
        ∙ e.rows q nd nf

    pub turn : Mapped l vm pd va pa (suc n) pages next (suc m)
    turn = record {
      upto = omega (arith, rest.upto);
      complete = elim rest.complete [ inl q ↦ inl (ap suc q) | inr q ↦ inr q ];
      inside = inside;
      outside = outside;
      is_apart = rest.is_apart;
      grows = omega (arith, e.grows, rest.grows);
      stays = stays;
      origin = origin;
      rows = rows;
    }
