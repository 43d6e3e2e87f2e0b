-- ===== src/Files.antt =====
-- fs/files.c: the table of open files of a task. A `struct file *` is the index of the file in the
-- kernel's file table, `none` the null pointer.
pub mod Lowest
mod Tests
use punix.Base.{
  update, ℕ, zero, suc, ◌+◌, Bool, true, false, Option, none, some, ltb, ◌==◌, if◌then◌else◌,
}
use punix.Base.Int.{ℤ, pos, negsuc}

abbrev pub rlimit_nofile : ℕ
rlimit_nofile = 16

-- `slots[fd].file` for each fd below the limit.
abbrev pub Files : Type 0
Files = ℕ → Option ℕ

pub init_loop : ℕ → ℕ → Files → Files
init_loop zero i files = files
init_loop (suc left) i files = init_loop left (i + 1) (update files i none)

pub init : Files → Files
init files = init_loop rlimit_nofile 0 files

-- `fd >= 0 && fd < RLIMIT_NOFILE`, and then the index.
unfoldable pub valid_fd : ℤ → Option ℕ
valid_fd (pos n) = if ltb n rlimit_nofile then some n else none
valid_fd (negsuc n) = none

unfoldable pub find_by_fd : Files → ℤ → Option ℕ
find_by_fd files fd = elim (valid_fd fd) [ none ↦ none | some n ↦ files n ]

pub is_null : Option ℕ → Bool
is_null none = true
is_null (some f) = false

-- The result is the fd, `none` for -1, and the table.
pub alloc_loop : ℕ → ℕ → Files → ℕ → Option ℕ × Files
alloc_loop zero fd files file = (none, files)
alloc_loop (suc left) fd files file =
    let next = alloc_loop left (fd + 1) files file in
    if is_null (files fd) then (some fd, update files fd (some file)) else next

-- The outer `none` is the panic on a null pointer.
pub alloc_fd : Files → Option ℕ → Option (Option ℕ × Files)
alloc_fd files none = none
alloc_fd files (some file) = some (alloc_loop rlimit_nofile 0 files file)

pub free_slot : Files → ℕ → Option ℕ × Files
free_slot files n = elim (files n) [ none ↦ (none, files) | some f ↦ (some f, update files n none) ]

pub free_fd : Files → ℤ → Option ℕ × Files
free_fd files fd = elim (valid_fd fd) [ none ↦ (none, files) | some n ↦ free_slot files n ]
