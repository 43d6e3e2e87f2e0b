-- ===== src/Mm/Frames.antt =====
-- The pages of the pool of arch/x86/mm.c by their virtual and their physical addresses.
use punix.Base.{ℕ, ◌+◌, ◌-◌, ◌*◌, ◌%◌, ◌<◌, ◌≤◌, ◌≡◌, ◌≢◌, ap, sym, ◌∙◌, arith}
use punix.Mm.{
  Layout, page_size, paging_pages, word, kernel_pa_to_va, kernel_va_to_pa, frame_to_pa, frame_bits,
}

-- What the linker script and the alignment of the pool give.
pub record IsLayout (l : Layout) : Type 0 where
  pub pa_aligned : l.pa_start % 4096 ≡ 0
  pub va_aligned : l.va_base % 4096 ≡ 0
  pub pool_aligned : l.pool % 4096 ≡ 0
  pub not_null : 0 < l.pa_start
  pub low : l.va_base ≤ l.pool
  pub va_fits : l.pool + paging_pages * page_size ≤ word
  pub pa_fits : l.pool + paging_pages * page_size + l.pa_start ≤ word + l.va_base

abbrev pub fresh_page : Layout → ℕ → ℕ
fresh_page l k = l.pool + k * page_size

module _ (l : Layout) (v : IsLayout l) (k : ℕ) (h : k < paging_pages) where
  pub va_to_pa-fresh : kernel_va_to_pa l (fresh_page l k) ≡ fresh_page l k - l.va_base + l.pa_start
  va_to_pa-fresh = omega (arith, v.not_null, v.low, v.va_fits, v.pa_fits)

  pub fresh-ne : kernel_va_to_pa l (fresh_page l k) ≢ 0
  fresh-ne e = omega (arith, va_to_pa-fresh, v.not_null, v.low, e)

  pub pa_to_va-va_to_pa : kernel_pa_to_va l (kernel_va_to_pa l (fresh_page l k)) ≡ fresh_page l k
  pa_to_va-va_to_pa =
      ap (kernel_pa_to_va l) va_to_pa-fresh ∙ omega (arith, v.not_null, v.low, v.va_fits, v.pa_fits)

  whole :
      frame_to_pa (frame_bits (fresh_page l k - l.va_base + l.pa_start))
      ≡ fresh_page l k - l.va_base + l.pa_start
  whole =
      omega
        (arith, v.pa_aligned, v.va_aligned, v.pool_aligned, v.not_null, v.low, v.va_fits, v.pa_fits)

  -- The frame number that a directory entry gets leads back to the page.
  pub table-fresh :
      kernel_pa_to_va l (frame_to_pa (frame_bits (kernel_va_to_pa l (fresh_page l k))))
      ≡ fresh_page l k
  table-fresh =
      ap (λ pa. kernel_pa_to_va l (frame_to_pa (frame_bits pa))) va_to_pa-fresh
      ∙ ap (kernel_pa_to_va l) (whole ∙ sym va_to_pa-fresh)
      ∙ pa_to_va-va_to_pa

pub fresh-inj : (l : Layout) (j k : ℕ) → fresh_page l j ≡ fresh_page l k → j ≡ k
fresh-inj l j k e = omega (arith, e)
