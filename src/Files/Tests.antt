-- ===== src/Files/Tests.antt =====
-- The theorems on the table of open files at concrete tables.
use punix.Base.{update, ℕ, ◌≡◌, refl, Option, none, some}
use punix.Files.{Files, rlimit_nofile, alloc_fd, alloc_loop, is_null}
use punix.Files.Lowest.{Allocated, alloc_fd_lowest}

-- Descriptor 0 is in use.
abbrev one_open : Files
one_open = update (λ fd. none) 0 (some 7)

alloc_fd_lowest_example :
    (r : Option ℕ × Files) × (alloc_fd one_open (some 9) ≡ some r)
    × Allocated one_open 9 0 rlimit_nofile r
    × (alloc_fd one_open none ≡ none)
alloc_fd_lowest_example = alloc_fd_lowest one_open 9

takes_one : alloc_fd one_open (some 9) ≡ some (some 1, update one_open 1 (some 9))
unfolding alloc_fd alloc_loop is_null update
takes_one = refl
