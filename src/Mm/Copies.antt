-- ===== src/Mm/Copies.antt =====
-- The directory that `mm_fork_kernel` of arch/x86/mm.c fills: the entries of the kernel's.
use punix.Base.{
  ℕ, zero, suc, ◌<◌, ◌≤◌, ◌≡◌, ◌≢◌, inl, inr, refl, sym, ap, ◌∙◌, arith, true, false, Bool-cases,
  if-true, if-false, both_branches, ℕ_discrete, leb, leb→le, leb→lt,
}
use punix.Mm.{Pages, Row, PageEntry}
use punix.Mm.Regions.{clear_dir, copy_dir}
use punix.Mm.Rows.{set_entry_self, set_entry_ne, set_entry_row}

clear_dir-row : (n : ℕ) (pages : Pages) (pd q : ℕ) → q ≢ pd → clear_dir n pages pd q ≡ pages q
clear_dir-row zero pages pd q ne = refl
clear_dir-row (suc n) pages pd q ne =
    set_entry_row (clear_dir n pages pd) pd n _ q ne ∙ clear_dir-row n pages pd q ne

clear_dir-ge : (n : ℕ) (pages : Pages) (pd j : ℕ) → n ≤ j → clear_dir n pages pd pd j ≡ pages pd j
clear_dir-ge zero pages pd j h = refl
clear_dir-ge (suc n) pages pd j h =
    set_entry_ne (clear_dir n pages pd) pd n _ j (omega arith)
    ∙ clear_dir-ge n pages pd j (omega arith)

clear_dir-lt :
    (n : ℕ) (pages : Pages) (pd j : ℕ) → j < n → (clear_dir n pages pd pd j).present ≡ false
clear_dir-lt zero pages pd j h = absurd (omega arith)
clear_dir-lt (suc n) pages pd j h = elim (ℕ_discrete j n) [
  | yes e ↦
      ap (λ k. (clear_dir (suc n) pages pd pd k).present) e
      ∙ ap (λ (x : PageEntry). x.present) (set_entry_self (clear_dir n pages pd) pd n _)
  | no ne ↦
      ap (λ (x : PageEntry). x.present) (set_entry_ne (clear_dir n pages pd) pd n _ j ne)
      ∙ clear_dir-lt n pages pd j (omega arith)
]

module _ (k pd : ℕ) (ne : k ≢ pd) where
  pub copy_dir-row : (n : ℕ) (pages : Pages) (q : ℕ) → q ≢ pd → copy_dir n pages k pd q ≡ pages q
  copy_dir-row zero pages q nd = refl
  copy_dir-row (suc n) pages q nd =
      both_branches (λ (p : Pages). p q ≡ pages q) (copy_dir n pages k pd k n).present
        (set_entry_row (copy_dir n pages k pd) pd n _ q nd ∙ copy_dir-row n pages q nd)
        (copy_dir-row n pages q nd)

  copy_dir-ge : (n : ℕ) (pages : Pages) (j : ℕ) → n ≤ j → copy_dir n pages k pd pd j ≡ pages pd j
  copy_dir-ge zero pages j h = refl
  copy_dir-ge (suc n) pages j h =
      both_branches (λ (p : Pages). p pd j ≡ pages pd j) (copy_dir n pages k pd k n).present
        (set_entry_ne (copy_dir n pages k pd) pd n _ j (omega arith)
          ∙ copy_dir-ge n pages j (omega arith))
        (copy_dir-ge n pages j (omega arith))

  same_source : (n : ℕ) (pages : Pages) (j : ℕ) → copy_dir n pages k pd k j ≡ pages k j
  same_source n pages j = ap (λ (r : Row). r j) (copy_dir-row n pages k ne)

  copy_dir-present :
      (n : ℕ) (pages : Pages) (j : ℕ)
      → j < n
      → (pages k j).present ≡ true
      → copy_dir n pages k pd pd j ≡ pages k j
  copy_dir-present zero pages j h p = absurd (omega arith)
  copy_dir-present (suc n) pages j h p = elim (ℕ_discrete j n) [
    | yes e ↦
        ap (copy_dir (suc n) pages k pd pd) e
        ∙ ap (λ (x : Pages). x pd n)
            (if-true _ _ _ (
              ap (λ (x : PageEntry). x.present) (same_source n pages n ∙ ap (pages k) (sym e)) ∙ p))
        ∙ set_entry_self (copy_dir n pages k pd) pd n _
        ∙ same_source n pages n
        ∙ ap (pages k) (sym e)
    | no nj ↦
        both_branches (λ (x : Pages). x pd j ≡ copy_dir n pages k pd pd j)
          (copy_dir n pages k pd k n).present (set_entry_ne (copy_dir n pages k pd) pd n _ j nj)
          refl
        ∙ copy_dir-present n pages j (omega arith) p
  ]

  copy_dir-absent :
      (n : ℕ) (pages : Pages) (j : ℕ)
      → j < n
      → (pages k j).present ≡ false
      → copy_dir n pages k pd pd j ≡ pages pd j
  copy_dir-absent zero pages j h p = absurd (omega arith)
  copy_dir-absent (suc n) pages j h p = elim (ℕ_discrete j n) [
    | yes e ↦
        ap (λ (x : Pages). x pd j)
          (if-false _ _ _
            (ap (λ (x : PageEntry). x.present) (same_source n pages n ∙ ap (pages k) (sym e)) ∙ p))
        ∙ copy_dir-ge n pages j (omega arith)
    | no nj ↦
        both_branches (λ (x : Pages). x pd j ≡ copy_dir n pages k pd pd j)
          (copy_dir n pages k pd k n).present (set_entry_ne (copy_dir n pages k pd) pd n _ j nj)
          refl
        ∙ copy_dir-absent n pages j (omega arith) p
  ]

  -- The new directory, whose entries are those of the kernel's that are present.
  module _ (n : ℕ) (pages : Pages) (end_k : (j : ℕ) → n ≤ j → (pages k j).present ≡ false)
      (end_pd : (j : ℕ) → n ≤ j → (pages pd j).present ≡ false) where
    abbrev pub forked : Pages
    forked = copy_dir n (clear_dir n pages pd) k pd

    kept : (j : ℕ) → clear_dir n pages pd k j ≡ pages k j
    kept j = ap (λ (r : Row). r j) (clear_dir-row n pages pd k ne)

    pub forked_rows : (q : ℕ) → q ≢ pd → forked q ≡ pages q
    forked_rows q nd = copy_dir-row n (clear_dir n pages pd) q nd ∙ clear_dir-row n pages pd q nd

    pub forked_present : (j : ℕ) → (pages k j).present ≡ true → forked pd j ≡ pages k j
    forked_present j p = elim (Bool-cases (leb n j)) [
      | inl h ↦ cc (end_k j (leb→le n j h))
      | inr h ↦
          copy_dir-present n (clear_dir n pages pd) j (leb→lt n j h)
            (ap (λ (x : PageEntry). x.present) (kept j) ∙ p)
          ∙ kept j
    ]

    pub forked_absent : (j : ℕ) → (pages k j).present ≡ false → (forked pd j).present ≡ false
    forked_absent j p = elim (Bool-cases (leb n j)) [
      | inl h ↦
          (let le : n ≤ j = leb→le n j h in
            ap (λ (x : PageEntry). x.present)
              (copy_dir-ge n (clear_dir n pages pd) j le ∙ clear_dir-ge n pages pd j le)
            ∙ end_pd j le)
      | inr h ↦
          (let lt : j < n = leb→lt n j h in
            ap (λ (x : PageEntry). x.present)
              (copy_dir-absent n (clear_dir n pages pd) j lt
                (ap (λ (x : PageEntry). x.present) (kept j) ∙ p))
            ∙ clear_dir-lt n pages pd j lt)
    ]
