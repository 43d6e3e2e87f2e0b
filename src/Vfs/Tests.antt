-- ===== src/Vfs/Tests.antt =====
-- The theorems on the virtual file system, with one file system at the root.
use punix.Base.{
  update, ◌+◌, ℕ, ◌≡◌, ◌<◌, refl, arith, List, [], ◌∷◌, some, none, Option, ◌==◌, ◌>>=◌, false,
}
use punix.Base.Int.{pos, negsuc}
use punix.Buffer.{Buf, store}
use punix.Drivers.{Drivers, Dirents, zero_file, zero_stat}
use punix.Files.{find_by_fd, valid_fd}
use punix.FreeRing.Queue.{count, entry}
use punix.Kutils.Strings.Text.{IsText, cstr}
use punix.Paths.Names.{canonical}
use punix.Sched.{schedule}
use punix.Sched.Samples.{busy}
use punix.Task.{Task, blank}
use punix.Vfs.{Vfs, file_bits, max_file_cnt, max_mounts, vfs_init, vfs_mount, path_to_fs}
use punix.Vfs.Calls.{State, vfs_open, vfs_read, vfs_write, vfs_getdents, vfs_fstat}
use punix.Vfs.Inv.{IsVfs}
use punix.Vfs.Init.{vfs_init-IsVfs}
use punix.Vfs.Longest.{WellMounted, Chosen, NoneAbove, path_to_fs_lem}
use punix.Vfs.Mounts.{MountDone, vfs_mount_lem}
use punix.Vfs.Outcome.{KeepsIdx, OpenDone}
use punix.Vfs.Total.{vfs_open_lem}
use punix.Vfs.Close.{ClosesKeepIdx, Undoable, open-close}

abbrev slash : List ℕ
slash = b'/' ∷ []

-- `/b`
abbrev file_b : List ℕ
file_b = b'/' ∷ b'b' ∷ []

abbrev zeros : Buf
zeros = λ i. 0

-- All files are free, and file system 3 is mounted at the root.
abbrev rooted : Vfs
rooted = record {
  ring = record { slots = λ i. i; head = 0; tail = 1024 };
  files = λ i. record zero_file { idx = i };
  mounts = λ i. record { path = store zeros 0 (cstr slash []); fs = some 3; active = i == 0 };
}

rooted-IsVfs : IsVfs rooted
rooted-IsVfs = record {
  ring = record { head_word = omega arith; tail_word = omega arith; fits = omega arith };
  in_range = λ k h. omega arith;
  indexed = λ f h. refl;
}

slash-IsText : IsText slash
slash-IsText = (omega arith, tt)

file_b-IsText : IsText file_b
file_b-IsText = (omega arith, (omega arith, tt))

rooted-WellMounted : WellMounted rooted.mounts (λ i. slash)
unfolding update
rooted-WellMounted i h on = (slash-IsText, ((refl, tt), refl), omega arith, omega arith)

-- Any open succeeds, and the file can be listed.
abbrev one_driver : Drivers ℕ
one_driver = record {
  fs_open = λ fs.
      some (λ file w. (pos 0, (record file { ops = record file.ops { getdents = some 1 } }, w)));
  close_op = λ op file w. (file, w + 1);
  write_op = λ op file text n w. (pos n, (file, w));
  read_op = λ op file buf n w. (pos 0, (file, (buf, w)));
  getdents_op = λ op file entries n w. (pos 0, (file, (entries, w)));
  fstat_op = λ op file stat w. (pos 0, (stat, w));
}

one_driver-KeepsIdx : KeepsIdx one_driver
one_driver-KeepsIdx fs file w = refl

one_driver-ClosesKeepIdx : ClosesKeepIdx one_driver
one_driver-ClosesKeepIdx none file w = refl
one_driver-ClosesKeepIdx (some op) file w = refl

abbrev at_root : Task
at_root = record blank { cwd = cstr slash [] }

vfs_init-IsVfs_example :
    IsVfs (vfs_init rooted)
    × (count (vfs_init rooted).ring ≡ max_file_cnt)
    × ((k : ℕ) → k < max_file_cnt → entry file_bits (vfs_init rooted).ring k ≡ k)
    × ((i : ℕ) → i < max_mounts → ((vfs_init rooted).mounts i).active ≡ false)
vfs_init-IsVfs_example = vfs_init-IsVfs rooted

vfs_mount_lem_example :
    MountDone rooted 0 5
      (canonical file_b)
      (vfs_mount rooted zeros (some (cstr file_b [])) (some 5))
vfs_mount_lem_example = vfs_mount_lem rooted zeros file_b [] 5 file_b-IsText (omega arith)

-- The mount at the root is above every path.
path_to_fs_lem_example :
    (r : Option ℕ) × (n : ℕ) × (path_to_fs rooted (cstr file_b []) ≡ some r)
    × Chosen rooted.mounts (λ i. slash) file_b max_mounts r n
    × (r ≡ none → NoneAbove rooted.mounts (λ i. slash) file_b)
    × (NoneAbove rooted.mounts (λ i. slash) file_b → r ≡ none)
path_to_fs_lem_example =
    path_to_fs_lem rooted (λ i. slash) b'/' (b'b' ∷ []) [] rooted-WellMounted (λ i h on. (3, refl))
      file_b-IsText refl

vfs_open_lem_example :
    (found : Option ℕ) × (len : ℕ) × Chosen rooted.mounts (λ i. slash) file_b max_mounts found len
    × OpenDone one_driver found
        (pos 0)
        (pos 0)
        file_b
        (at_root, (rooted, 0))
        (vfs_open one_driver (some (cstr file_b [])) (pos 0) (pos 0) zeros (at_root, (rooted, 0)))
vfs_open_lem_example =
    vfs_open_lem one_driver one_driver-KeepsIdx at_root rooted 0 slash [] file_b [] (λ i. slash)
      (pos 0) (pos 0) zeros refl slash-IsText file_b-IsText (omega arith) rooted-IsVfs
      rooted-WellMounted

open-close_example :
    (found : Option ℕ) × (len : ℕ) × (out : Option ℕ × State one_driver) × Chosen rooted.mounts
      (λ i. slash)
      file_b
      max_mounts
      found
      len
    × (vfs_open one_driver (some (cstr file_b [])) (pos 0) (pos 0) zeros (at_root, (rooted, 0))
        ≡ some out)
    × Undoable one_driver found (pos 0) (pos 0) file_b (at_root, (rooted, 0)) out
open-close_example =
    open-close one_driver one_driver-KeepsIdx one_driver-ClosesKeepIdx at_root rooted 0 slash []
      file_b [] (λ i. slash) (pos 0) (pos 0) zeros refl slash-IsText file_b-IsText (omega arith)
      rooted-IsVfs rooted-WellMounted

-- `vfs_read` lets the next task run first, even when there is nothing to read.
read_switches :
    vfs_read one_driver busy (pos 4) none 0
    ≡ (schedule busy >>= (λ s'. some (s', λ current state. (pos 0, (none, state)))))
unfolding vfs_read
read_switches = refl

-- The calls on a descriptor that is not open.
abbrev no_entry : Dirents
no_entry = λ i. record { d_ino = 0; d_reclen = 0; d_type = 0; d_name = zeros }

write_closed :
    vfs_write one_driver (some at_root) (pos 4) (some file_b) 2 (rooted, 0)
    ≡ (negsuc 0, (rooted, 0))
unfolding vfs_write find_by_fd valid_fd
write_closed = refl

getdents_closed :
    vfs_getdents one_driver (some at_root) (pos 4) no_entry 2 (rooted, 0)
    ≡ (negsuc 0, (no_entry, (rooted, 0)))
unfolding vfs_getdents find_by_fd valid_fd
getdents_closed = refl

fstat_closed :
    vfs_fstat one_driver at_root (pos 4) zero_stat (rooted, 0) ≡ (negsuc 0, (zero_stat, 0))
unfolding vfs_fstat find_by_fd valid_fd
fstat_closed = refl
