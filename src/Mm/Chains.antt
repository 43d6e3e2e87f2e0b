-- ===== src/Mm/Chains.antt =====
-- The lists of regions of arch/x86/mm.c: the search, and the copies that `mm_fork_kernel` makes.
use punix.Base.{
  ℕ, zero, suc, ◌+◌, ◌<◌, ◌≤◌, ◌≡◌, inl, inr, refl, sym, ap, subst, ◌∙◌, arith, true, false,
  Bool-cases, if-true, if-false, leb, ◌==◌, if◌then◌else◌, Option, none, some, map?, List, [], ◌∷◌,
  length, update_self, update_ne,
}
use punix.Paths.{reverse_onto}
use punix.Mm.{Vm, Vma, Mm, Owner, max_vmas, alloc_vma}
use punix.Mm.Regions.{find_vma, link_vma, copy_vmas}

-- A region without its place in the list: addresses, length, flags and type.
pub record Region : Type 0 where
  pub va : ℕ
  pub pa : ℕ
  pub size : ℕ
  pub flags : ℕ
  pub kind : ℕ

abbrev pub region : Vma → Region
region v = record { va = v.base_va; pa = v.base_pa; size = v.size; flags = v.flags; kind = v.kind }

-- The list from `p` on is in the first `bound` places of the pool, and its regions are these.
abbrev pub Lists : (ℕ → Vma) → ℕ → Option ℕ → List Region → Type 0
Lists pool bound p [] = p ≡ none
Lists pool bound p (r ∷ rs) =
    (i : ℕ) × (p ≡ some i) × (i < bound) × (region (pool i) ≡ r) × Lists pool bound (pool i).next rs

abbrev pub first_of : ℕ → List Region → Option Region
first_of kind [] = none
first_of kind (r ∷ rs) = if r.kind == kind then some r else first_of kind rs

Lists-cong :
    (pool pool' : ℕ → Vma) (bound bound' : ℕ) (p : Option ℕ) (rs : List Region)
    → ((i : ℕ) → i < bound → pool' i ≡ pool i)
    → bound ≤ bound'
    → Lists pool bound p rs
    → Lists pool' bound' p rs
Lists-cong pool pool' bound bound' p [] same h e = e
Lists-cong pool pool' bound bound' p (r ∷ rs) same h (i, e, low, eq, rest) = (
  i,
  e,
  omega (arith, low, h),
  ap region (same i low) ∙ eq,
  subst (λ q. Lists pool' bound' q rs) (ap (λ v. v.next) (sym (same i low)))
      (Lists-cong pool pool' bound bound' (pool i).next rs same h rest),
)

-- The loop of `mm_find_vma_by_type` returns the first region of the type in a list, and null if
-- there is none, given as much fuel as the list is long.
pub find_vma_lem :
    (fuel : ℕ) (pool : ℕ → Vma) (bound : ℕ) (p : Option ℕ) (kind : ℕ) (rs : List Region)
    → Lists pool bound p rs
    → length rs ≤ fuel
    → (r : Option ℕ) × (find_vma fuel pool p kind ≡ some r)
      × (map? (λ i. region (pool i)) r ≡ first_of kind rs)
unfolding find_vma
find_vma_lem fuel pool bound p kind [] e h =
    (none, ap (λ q. find_vma fuel pool q kind) e ∙ ends fuel pool kind, refl)
  where
    ends : (fuel : ℕ) (pool : ℕ → Vma) (kind : ℕ) → find_vma fuel pool none kind ≡ some none
    ends zero pool kind = refl
    ends (suc fuel) pool kind = refl
find_vma_lem zero pool bound p kind (r ∷ rs) v h = absurd (omega (arith, h))
find_vma_lem (suc fuel) pool bound p kind (r ∷ rs) (i, e, low, eq, rest) h =
    let same : (pool i).kind ≡ r.kind = ap (λ x. x.kind) eq in
    let start = ap (λ q. find_vma (suc fuel) pool q kind) e in
    elim (Bool-cases ((pool i).kind == kind)) [
      | inl t ↦ (
        some i,
        start ∙ if-true _ _ _ t,
        ap some eq ∙ sym (if-true _ _ _ (ap (λ k. k == kind) (sym same) ∙ t)),
      )
      | inr f ↦
          (let (found, ef, er) =
              find_vma_lem fuel pool bound (pool i).next kind rs rest (omega (arith, h)) in
            (
              found,
              start ∙ if-false _ _ _ f ∙ ef,
              er ∙ sym (if-false _ _ _ (ap (λ k. k == kind) (sym same) ∙ f)),
            ))
    ]

-- What the copying leaves of the other state.
pub record Copied (vm vm' : Vm) (j : ℕ) : Type 0 where
  pub pages : vm'.pages ≡ vm.pages
  pub paging_next : vm'.paging_next ≡ vm.paging_next
  pub impl_pool : vm'.impl_pool ≡ vm.impl_pool
  pub kernel_impl : vm'.kernel_impl ≡ vm.kernel_impl
  pub kernel_mm : vm'.kernel_mm ≡ vm.kernel_mm
  pub impl : (vm'.proc_mms j).impl ≡ (vm.proc_mms j).impl
  pub old : (i : ℕ) → i < vm.vma_next → vm'.vma_pool i ≡ vm.vma_pool i

-- One turn: the copy stands in front of the list of the new address space.
module _ (vm : Vm) (j kv : ℕ) where
  abbrev pub turn : Vm
  turn =
      link_vma (record vm { vma_next = vm.vma_next + 1 }) (Owner.slot j) vm.vma_next
        (vm.vma_pool kv)

  slot_turn : turn.proc_mms j ≡ record (vm.proc_mms j) { vmas = some vm.vma_next }
  slot_turn = update_self vm.proc_mms j _

  pool_new : turn.vma_pool vm.vma_next ≡ record (vm.vma_pool kv) { next = (vm.proc_mms j).vmas }
  pool_new = update_self vm.vma_pool vm.vma_next _

  pub pool_old : (i : ℕ) → i < vm.vma_next → turn.vma_pool i ≡ vm.vma_pool i
  pool_old i h = update_ne vm.vma_pool vm.vma_next i _ (omega (arith, h))

  Lists-turn :
      (r : Region) (acc : List Region)
      → region (vm.vma_pool kv) ≡ r
      → Lists vm.vma_pool vm.vma_next (vm.proc_mms j).vmas acc
      → Lists turn.vma_pool turn.vma_next (turn.proc_mms j).vmas (r ∷ acc)
  Lists-turn r acc e v = (
    vm.vma_next,
    ap (λ (m : Mm). m.vmas) slot_turn,
    omega arith,
    ap region pool_new ∙ e,
    subst (λ q. Lists turn.vma_pool turn.vma_next q acc) (ap (λ (x : Vma). x.next) (sym pool_new))
        (Lists-cong vm.vma_pool turn.vma_pool vm.vma_next turn.vma_next (vm.proc_mms j).vmas acc
          pool_old (omega arith) v),
  )

  Copied-turn : (vm' : Vm) → Copied turn vm' j → Copied vm vm' j
  Copied-turn vm' c = record {
    pages = c.pages;
    paging_next = c.paging_next;
    impl_pool = c.impl_pool;
    kernel_impl = c.kernel_impl;
    kernel_mm = c.kernel_mm;
    impl = c.impl ∙ ap (λ (m : Mm). m.impl) slot_turn;
    old = λ i h. c.old i (omega (arith, h)) ∙ pool_old i h;
  }

copy_turn :
    (fuel : ℕ) (vm : Vm) (j kv : ℕ)
    → vm.vma_next < max_vmas
    → copy_vmas (suc fuel) vm (Owner.slot j) (some kv)
      ≡ copy_vmas fuel (turn vm j kv) (Owner.slot j) ((turn vm j kv).vma_pool kv).next
unfolding copy_vmas
copy_turn fuel vm j kv h =
    let e : alloc_vma vm ≡ some (vm.vma_next, record vm { vma_next = vm.vma_next + 1 }) =
      if-false (leb max_vmas vm.vma_next) _ _ (ground arith) in
    ap
      (λ (o : Option (ℕ × Vm)). elim o [
        | none ↦ some (false, vm)
        | some (i, vm1) ↦
            (let vm2 = link_vma vm1 (Owner.slot j) i (vm1.vma_pool kv) in
              copy_vmas fuel vm2 (Owner.slot j) (vm2.vma_pool kv).next)
      ])
      e

none_left : (fuel : ℕ) (vm : Vm) (m : Owner) → copy_vmas (suc fuel) vm m none ≡ some (true, vm)
unfolding copy_vmas
none_left fuel vm m = refl

-- Every region of the list is copied; the copies stand in the reverse order.
pub copy_vmas_lem :
    (rs acc : List Region) (fuel : ℕ) (vm : Vm) (j : ℕ) (p : Option ℕ)
    → Lists vm.vma_pool vm.vma_next p rs
    → Lists vm.vma_pool vm.vma_next (vm.proc_mms j).vmas acc
    → length rs < fuel
    → vm.vma_next + length rs ≤ max_vmas
    → (vm' : Vm) × (copy_vmas fuel vm (Owner.slot j) p ≡ some (true, vm'))
      × Lists vm'.vma_pool vm'.vma_next (vm'.proc_mms j).vmas (reverse_onto rs acc)
      × (vm.vma_next ≤ vm'.vma_next)
      × Copied vm vm' j
copy_vmas_lem rs acc zero vm j p v w h room = absurd (omega (arith, h))
copy_vmas_lem [] acc (suc fuel) vm j p e w h room = (
  vm,
  ap (copy_vmas (suc fuel) vm (Owner.slot j)) e ∙ none_left fuel vm (Owner.slot j),
  w,
  omega arith,
  record {
    pages = refl;
    paging_next = refl;
    impl_pool = refl;
    kernel_impl = refl;
    kernel_mm = refl;
    impl = refl;
    old = λ i h. refl;
  },
)
copy_vmas_lem (r ∷ rs) acc (suc fuel) vm j p (i, e, low, eq, rest) w h room =
    let vm2 = turn vm j i in
    let here : vm2.vma_pool i ≡ vm.vma_pool i = pool_old vm j i i low in
    let rest2 : Lists vm2.vma_pool vm2.vma_next (vm2.vma_pool i).next rs =
      subst (λ q. Lists vm2.vma_pool vm2.vma_next q rs) (ap (λ (x : Vma). x.next) (sym here))
        (Lists-cong vm.vma_pool vm2.vma_pool vm.vma_next vm2.vma_next (vm.vma_pool i).next rs
          (pool_old vm j i) (omega arith) rest) in
    let (vm', ec, wl, grows, c) =
      copy_vmas_lem rs (r ∷ acc) fuel vm2 j (vm2.vma_pool i).next rest2
        (Lists-turn vm j i r acc eq w) (omega (arith, h)) (omega (arith, room)) in
    (
      vm',
      ap (copy_vmas (suc fuel) vm (Owner.slot j)) e
          ∙ copy_turn fuel vm j i (omega (arith, room))
          ∙ ec,
      wl,
      omega (arith, grows),
      Copied-turn vm j i vm' c,
    )
