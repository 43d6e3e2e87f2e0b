-- ===== src/Mm/Rows.antt =====
-- Rows of entries in the store of pages: what a write changes and what it leaves.
use punix.Base.{
  ℕ, zero, suc, ◌<◌, ◌≤◌, ◌≡◌, ◌≢◌, refl, sym, ap, ap₂, subst, ◌∙◌, arith, update, update_self,
  update_ne, ℕ_discrete,
}
use punix.Mm.{Pages, Row, PageEntry, set_entry, clear_entry, pt_clear}

module _ (pages : Pages) (p i : ℕ) (e : PageEntry) where
  pub set_entry_self : set_entry pages p i e p i ≡ e
  set_entry_self =
      ap (λ (r : Row). r i) (update_self pages p (update (pages p) i e)) ∙ update_self (pages p) i e

  pub set_entry_ne : (j : ℕ) → j ≢ i → set_entry pages p i e p j ≡ pages p j
  set_entry_ne j ne =
      ap (λ (r : Row). r j) (update_self pages p (update (pages p) i e))
      ∙ update_ne (pages p) i j e ne

  pub set_entry_row : (q : ℕ) → q ≢ p → set_entry pages p i e q ≡ pages q
  set_entry_row q ne = update_ne pages p q (update (pages p) i e) ne

  -- A property of one entry, kept if the new entry has it when it stands there.
  pub set_entry-cases {ℓ} :
      (P : PageEntry → Type ℓ) (q j : ℕ)
      → (q ≡ p → j ≡ i → P e)
      → P (pages q j)
      → P (set_entry pages p i e q j)
  set_entry-cases P q j new old = elim (ℕ_discrete q p) [
    | yes eq ↦ elim (ℕ_discrete j i) [
      | yes ei ↦ subst P (sym (ap₂ (set_entry pages p i e) eq ei ∙ set_entry_self)) (new eq ei)
      | no ne ↦
          subst P
            (sym (
              ap (λ r. set_entry pages p i e r j) eq
              ∙ set_entry_ne j ne
              ∙ ap (λ r. pages r j) (sym eq)))
            old
    ]
    | no ne ↦ subst P (sym (ap (λ (r : Row). r j) (set_entry_row q ne))) old
  ]

-- `pt_clear` leaves no entry of the table present.
pub pt_clear-ge : (n j : ℕ) (row : Row) → n ≤ j → pt_clear n row j ≡ row j
pt_clear-ge zero j row h = refl
pt_clear-ge (suc n) j row h =
    update_ne (pt_clear n row) n j _ (omega arith) ∙ pt_clear-ge n j row (omega arith)

pub pt_clear_lem : (n j : ℕ) (row : Row) → j < n → pt_clear n row j ≡ clear_entry (row j)
pt_clear_lem zero j row h = absurd (omega arith)
pt_clear_lem (suc n) j row h = elim (ℕ_discrete j n) [
  | yes e ↦
      ap (pt_clear (suc n) row) e
      ∙ update_self (pt_clear n row) n _
      ∙ ap clear_entry (pt_clear-ge n n row (omega arith))
      ∙ ap (λ k. clear_entry (row k)) (sym e)
  | no ne ↦ update_ne (pt_clear n row) n j _ ne ∙ pt_clear_lem n j row (omega arith)
]
