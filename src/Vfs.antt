-- ===== src/Vfs.antt =====
-- fs/vfs.c: the table of open files and the table of mounts. A `struct file *` is an index of the file
-- table, a `struct fs *` and a function pointer are numbers; `none` is the null pointer. The path
-- functions stand in Paths, the calls on open files in Vfs/Calls.
pub mod Calls
pub mod Prefix
pub mod Longest
pub mod Mounts
pub mod Inv
pub mod Init
pub mod Outcome
pub mod Open
pub mod Total
pub mod Close
mod Tests
use punix.Base.{
  ℕ, zero, suc, ◌+◌, ◌-◌, Bool, true, false, not, ◌&&◌, ◌||◌, Option, none, some, List, [], ◌∷◌,
  get_elem?, drop, ltb, leb, ◌==◌, ◌!=◌, if◌then◌else◌, ◌>>=◌, update,
}
use punix.Base.Int.{ℤ, pos, negsuc}
use punix.Buffer.{Buf, bytes, store}
use punix.FreeRing.{FreeRing, take, give}
use punix.Kutils.Strings.{strlen, strncmp, strcpy}
use punix.Drivers.{OpenFile, zero_file, max_filename_len}
use punix.Paths.{normalize, copy_string, is_slash}

-- `MAX_FILE_CNT` is two to the power of `file_bits`.
abbrev pub file_bits : ℕ
file_bits = 10

abbrev pub max_file_cnt : ℕ
max_file_cnt = 1024

abbrev pub max_mounts : ℕ
max_mounts = 16

pub record Mount : Type 0 where
  pub path : Buf
  pub fs : Option ℕ
  pub active : Bool

pub record Vfs : Type 0 where
  pub ring : FreeRing
  pub files : ℕ → OpenFile
  pub mounts : ℕ → Mount

-- The loop over the files, from index `i` on.
pub init_files : ℕ → ℕ → Vfs → Vfs
init_files zero i v = v
init_files (suc left) i v = init_files left (i + 1) (record v {
  files = update v.files i (record zero_file { idx = i });
  ring = record v.ring { slots = update v.ring.slots i i };
})

pub init_mounts : ℕ → ℕ → Vfs → Vfs
init_mounts zero i v = v
init_mounts (suc left) i v = init_mounts left (i + 1) (record v {
  mounts =
      update v.mounts i (record { path = update (v.mounts i).path 0 0; fs = none; active = false });
})

pub vfs_init : Vfs → Vfs
vfs_init v = init_mounts max_mounts 0 (
    init_files max_file_cnt 0 (record v { ring = record v.ring { head = 0; tail = max_file_cnt } }))

-- `none` is the null pointer: every file is in use.
pub alloc_file : Vfs → Option (ℕ × Vfs)
alloc_file v = take file_bits v.ring >>= (λ (file, ring). some (file, record v { ring = ring }))

-- `none` is the panic.
pub free_file : Vfs → ℕ → Option Vfs
free_file v file = give file_bits v.ring (v.files file).idx >>= (λ ring. some (record v {
  ring = ring;
  files = update v.files file (record (v.files file) { fd = negsuc 0 });
}))

-- The loop over the mounts, for the first free slot.
pub mount_loop : ℕ → ℕ → Vfs → Buf → ℕ → Option (ℤ × Vfs)
mount_loop zero i v normalized fs = some (negsuc 0, v)
mount_loop (suc left) i v normalized fs =
    let next = mount_loop left (i + 1) v normalized fs in
    if (v.mounts i).active
    then next
    else strcpy (bytes (v.mounts i).path 0 max_filename_len) (bytes normalized 0 max_filename_len)
      >>= (λ out. some (
        pos 0,
        record v {
          mounts =
              update v.mounts i
                (record { path = store (v.mounts i).path 0 out; fs = some fs; active = true });
        },
      ))

-- `normalized` is the array on the stack; the outer `none` is a string function that leaves its
-- object.
pub vfs_mount : Vfs → Buf → Option (List ℕ) → Option ℕ → Option (ℤ × Vfs)
vfs_mount v normalized none fs = some (negsuc 0, v)
vfs_mount v normalized (some path) none = some (negsuc 0, v)
vfs_mount v normalized (some path) (some fs) =
    copy_string normalized max_filename_len 0 path >>= (λ copied.
      normalize copied max_filename_len >>= (λ norm. mount_loop max_mounts 0 v norm fs))

-- `pathname[mount_len] == 0 || pathname[mount_len] == '/' || mount_len == 1`
abbrev pub at_border : Option ℕ → ℕ → Option Bool
at_border none len = none
at_border (some c) len = some (c == 0 || (is_slash c || len == 1))

-- What follows `k_strncmp` with the path of a mount that is `len` characters long.
abbrev pub judge : ℤ → List ℕ → ℕ → Option (Bool × ℕ)
judge (pos zero) pathname len =
    at_border (get_elem? pathname len) len >>= (λ border. some (border, len))
judge (pos (suc n)) pathname len = some (false, len)
judge (negsuc n) pathname len = some (false, len)

-- Whether the path lies under the mount, and the length of the mount's path.
pub under : Mount → List ℕ → Option (Bool × ℕ)
under m pathname = strlen (bytes m.path 0 max_filename_len) >>= (λ len.
    strncmp pathname (bytes m.path 0 max_filename_len) len >>= (λ z. judge z pathname len))

-- `if (mount_len > best_len)` under the tests.
abbrev pub better : Mount → Bool × ℕ → Option ℕ × ℕ → Option ℕ × ℕ
better m (border, len) (best_fs, best_len) =
    if border && ltb best_len len then (m.fs, len) else (best_fs, best_len)

-- The loop over the mounts; the state is the best file system and the length of its path.
pub best_loop : ℕ → ℕ → (ℕ → Mount) → List ℕ → Option ℕ × ℕ → Option (Option ℕ)
best_loop zero i mounts pathname (best_fs, best_len) = some best_fs
best_loop (suc left) i mounts pathname (best_fs, best_len) =
    if (mounts i).active
    then under (mounts i) pathname
      >>= (λ r. best_loop left (i + 1) mounts pathname (better (mounts i) r (best_fs, best_len)))
    else best_loop left (i + 1) mounts pathname (best_fs, best_len)

pub path_to_fs : Vfs → List ℕ → Option (Option ℕ)
path_to_fs v [] = none
path_to_fs v (c ∷ pathname) =
    if is_slash c then best_loop max_mounts 0 v.mounts (c ∷ pathname) (none, 0) else some none
