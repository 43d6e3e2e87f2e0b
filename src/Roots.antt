-- ===== src/Roots.antt =====
-- The directories of fs/root_fs.c and fs/sys_fs.c, and `vfs_get_root_mounts` of fs/vfs.c, which lists
-- the mounts right below the root.
pub mod Listed
mod Tests
use punix.Base.{
  ℕ, zero, suc, ◌+◌, ◌-◌, Bool, true, false, not, ◌&&◌, ◌||◌, Option, none, some, List, [], ◌∷◌,
  leb, ◌==◌, if◌then◌else◌, ◌>>=◌,
}
use punix.Base.Int.{ℤ, pos, negsuc}
use punix.Buffer.{Buf, bytes}
use punix.Devices.{same_name}
use punix.Drivers.{OpenFile, Dirents, add_entry, list_directory, dt_dir, max_filename_len}
use punix.Kutils.Strings.{strchr, strncmp}
use punix.Paths.{is_slash}
use punix.Vfs.{Vfs, Mount, max_mounts}

abbrev pub absent : Option ℕ → Bool
absent none = true
absent (some i) = false

-- `path + 1`
abbrev pub mount_name : Mount → List ℕ
mount_name m = bytes m.path 1 (max_filename_len - 1)

-- What the loop does with an active mount; `c` and `x` are the first two characters of its path.
abbrev pub list_named : ℕ → ℕ → List ℕ → ℕ → Dirents → ℕ → Option (Dirents × ℕ)
list_named c x name max_entries buf idx =
    if is_slash c && x == 0
    then some (buf, idx)
    else if not (is_slash c)
    then some (buf, idx)
    else strchr (some name) b'/' >>= (λ found.
      if absent found && not (x == 0)
      then add_entry buf max_entries idx 0 dt_dir (some name) >>= (λ added. some added.1)
      else some (buf, idx))

abbrev pub list_mount : Mount → ℕ → Dirents → ℕ → Option (Dirents × ℕ)
list_mount m max_entries buf idx =
    list_named (m.path 0) (m.path 1) (mount_name m) max_entries buf idx

pub mounts_loop : ℕ → ℕ → (ℕ → Mount) → ℕ → Dirents × ℕ → Option (Dirents × ℕ)
mounts_loop zero i mounts max_entries (buf, idx) = some (buf, idx)
mounts_loop (suc left) i mounts max_entries (buf, idx) =
    if leb max_entries idx
    then some (buf, idx)
    else if (mounts i).active
    then list_mount (mounts i) max_entries buf idx
      >>= (λ state. mounts_loop left (i + 1) mounts max_entries state)
    else mounts_loop left (i + 1) mounts max_entries (buf, idx)

abbrev pub get_root_mounts : Vfs → ℕ → Dirents × ℕ → Option (Dirents × ℕ)
get_root_mounts v max_entries state = mounts_loop max_mounts 0 v.mounts max_entries state

-- The buffers of the directories are not null.
pub root_getdents : Vfs → OpenFile → Dirents → ℕ → Option (ℤ × (OpenFile × Dirents))
root_getdents v file buf count =
    list_directory 1 1 (λ max_entries. get_root_mounts v max_entries) file buf count

-- `listing` is the number of the `getdents` function as an operation.
abbrev pub set_getdents : OpenFile → ℕ → OpenFile
set_getdents file listing = record file { ops = record file.ops { getdents = some listing } }

pub root_open : ℕ → OpenFile → ℤ × OpenFile
root_open listing file = (pos 0, set_getdents file listing)

pub sys_getdents : OpenFile → Dirents → ℕ → Option (ℤ × (OpenFile × Dirents))
sys_getdents file buf count = list_directory 1 2 (λ max_entries state. some state) file buf count

pub sys_open : ℕ → OpenFile → Option (ℤ × OpenFile)
sys_open listing file =
    same_name
      (strncmp (bytes file.pathname 0 max_filename_len) (b'/' ∷ b's' ∷ b'y' ∷ b's' ∷ 0 ∷ []) 4)
    >>= (λ sys.
        if not sys
        then some (negsuc 0, file)
        else if file.pathname 4 == 0 || (is_slash (file.pathname 4) && file.pathname 5 == 0)
        then some (pos 0, set_getdents file listing)
        else some (negsuc 0, file))
