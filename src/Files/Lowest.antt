-- ===== src/Files/Lowest.antt =====
-- The table of open files: `files_alloc_fd` takes the lowest free descriptor.
use punix.Base.{
  update, update_self, update_ne, ℕ, zero, suc, ◌+◌, ◌≤◌, ◌<◌, ◌≡◌, refl, ◌≢◌, inl, inr, true,
  false, Option, none, some, arith, Bool-cases, ◌∙◌, sym, ℕ_discrete, dec_lt, lt→ltb,
}
use punix.Base.Int.{pos}
use punix.Files.{
  Files, rlimit_nofile, find_by_fd, valid_fd, is_null, alloc_loop, alloc_fd, free_slot, free_fd,
}

-- What the loop over the descriptors from `fd` up to `last` returns.
abbrev pub Allocated : Files → ℕ → ℕ → ℕ → Option ℕ × Files → Type 0
Allocated files file fd last (none, t) =
    (t ≡ files) × ((k : ℕ) → fd ≤ k → k < last → files k ≢ none)
Allocated files file fd last (some n, t) =
    (fd ≤ n)
    × (n < last)
    × (files n ≡ none)
    × ((k : ℕ) → fd ≤ k → k < n → files k ≢ none)
    × (t ≡ update files n (some file))

is_null-none : (o : Option ℕ) → is_null o ≡ true → o ≡ none
unfolding is_null
is_null-none none h = refl
is_null-none (some f) h = absurd (cc)

is_null-some : (o : Option ℕ) → is_null o ≡ false → o ≢ none
unfolding is_null
is_null-some none h e = cc
is_null-some (some f) h e = cc

module _ (files : Files) (file fd : ℕ) where
  extend :
      (last : ℕ)
      → files fd ≢ none
      → ((k : ℕ) → fd + 1 ≤ k → k < last → files k ≢ none)
      → (k : ℕ) → fd ≤ k
      → k < last
      → files k ≢ none
  extend last used all k p q = elim (dec_lt fd k) [
    | yes later ↦ all k (omega arith) q
    | no now ↦ let e : k ≡ fd = omega arith in rw e used
  ]

  Allocated-suc :
      (last : ℕ) (r : Option ℕ × Files)
      → files fd ≢ none
      → Allocated files file (fd + 1) last r
      → Allocated files file fd last r
  Allocated-suc last (none, t) used (e, all) = (e, extend last used all)
  Allocated-suc last (some n, t) used (lo, hi, free, below, e) =
      (omega arith, hi, free, extend n used below, e)

alloc_loop-Allocated :
    (left fd last : ℕ) (files : Files) (file : ℕ)
    → fd + left ≡ last
    → Allocated files file fd last (alloc_loop left fd files file)
unfolding alloc_loop
alloc_loop-Allocated zero fd last files file e = (refl, λ k p q. absurd (omega arith))
alloc_loop-Allocated (suc left) fd last files file e = elim (Bool-cases (is_null (files fd))) [
  | inl free ↦
      rw free (
        omega arith,
        omega arith,
        is_null-none (files fd) free,
        λ k p q. absurd (omega arith),
        refl,
      )
  | inr used ↦ rw used (
      Allocated-suc files file fd last _ (is_null-some (files fd) used)
        (alloc_loop-Allocated left (fd + 1) last files file (omega arith)))
]

-- `files_alloc_fd` hands out the lowest free descriptor and changes that entry alone; it fails, and
-- changes nothing, exactly if all descriptors are in use. A null file is a panic.
pub alloc_fd_lowest :
    (files : Files) (file : ℕ)
    → (r : Option ℕ × Files) × (alloc_fd files (some file) ≡ some r)
      × Allocated files file 0 rlimit_nofile r
      × (alloc_fd files none ≡ none)
unfolding alloc_fd
alloc_fd_lowest files file = (
  alloc_loop rlimit_nofile 0 files file,
  refl,
  alloc_loop-Allocated rlimit_nofile 0 rlimit_nofile files file (omega arith),
  refl,
)

valid_in_range : (n : ℕ) → n < rlimit_nofile → valid_fd (pos n) ≡ some n
unfolding valid_fd
valid_in_range n h = rw (lt→ltb n rlimit_nofile h) refl

find_in_range : (files : Files) (n : ℕ) → n < rlimit_nofile → find_by_fd files (pos n) ≡ files n
unfolding find_by_fd
find_in_range files n h = rw (valid_in_range n h, find_by_fd) refl

free_in_range :
    (files : Files) (n f : ℕ)
    → n < rlimit_nofile
    → files n ≡ some f
    → free_fd files (pos n) ≡ (some f, update files n none)
unfolding free_fd free_slot
free_in_range files n f h e = rw (valid_in_range n h, free_fd) (rw (e, free_slot) refl)

-- Freeing what has just been allocated restores every entry.
update-undo :
    (files : Files) (n k : ℕ) (v : Option ℕ)
    → files n ≡ none
    → update (update files n v) n none k ≡ files k
update-undo files n k v e = elim (ℕ_discrete k n) [
  | yes same ↦ rw (same, update_self) (sym e)
  | no ne ↦ update_ne (update files n v) n k none ne ∙ update_ne files n k v ne
]

-- After a descriptor has been allocated `files_find_by_fd` finds the file under it and
-- `files_free_fd` returns the file; then the descriptor is free, and every entry is as it was
-- before.
pub alloc-find-free :
    (files : Files) (file n : ℕ) (t : Files)
    → alloc_fd files (some file) ≡ some (some n, t)
    → (find_by_fd t (pos n) ≡ some file)
      × ((free_fd t (pos n)).0 ≡ some file)
      × (find_by_fd (free_fd t (pos n)).1 (pos n) ≡ none)
      × ((k : ℕ) → (free_fd t (pos n)).1 k ≡ files k)
alloc-find-free files file n t e = let (r, er, is, _) = alloc_fd_lowest files file in go r is (cc)
  where
    go :
        (r : Option ℕ × Files)
        → Allocated files file 0 rlimit_nofile r
        → r ≡ (some n, t)
        → (find_by_fd t (pos n) ≡ some file)
          × ((free_fd t (pos n)).0 ≡ some file)
          × (find_by_fd (free_fd t (pos n)).1 (pos n) ≡ none)
          × ((k : ℕ) → (free_fd t (pos n)).1 k ≡ files k)
    go (none, t') is e = absurd (cc)
    go (some n', t') (lo, hi, free, below, et) e =
        let en : n' ≡ n = cc in
        let et' : t ≡ update files n (some file) = cc in
        let hn : n < rlimit_nofile = rw en at hi in
        let free' : files n ≡ none = rw en at free in
        let here : t n ≡ some file = rw et' (update_self files n (some file)) in
        let freed = free_in_range t n file hn here in
        rw (find_in_range t n hn, freed, here, find_in_range (update t n none) n hn, update_self)
          (refl, refl, refl, λ k. rw et' (update-undo files n k (some file) free'))
