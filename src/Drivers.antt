-- ===== src/Drivers.antt =====
-- The interface of the file systems: include/kernel/files.h, include/dirent.h, include/stat.h, and the
-- directory entries of fs/fs_util.c. A function pointer is a number, `none` the null pointer.
pub mod Entries
pub mod Listing
use punix.Base.{
  ℕ, ◌+◌, ◌-◌, ◌*◌, ◌/◌, ltb, [], ◌∷◌, Bool, true, false, Option, none, some, List, leb,
  if◌then◌else◌, ◌>>=◌, update,
}
use punix.Base.Int.{ℤ, pos}
use punix.Buffer.{Buf, bytes, store}
use punix.Kutils.Strings.{strlen, memcpy}

abbrev pub max_filename_len : ℕ
max_filename_len = 64

-- `struct file_ops`
pub record FileOps : Type 0 where
  pub open_op : Option ℕ
  pub close : Option ℕ
  pub read : Option ℕ
  pub write : Option ℕ
  pub getdents : Option ℕ
  pub fstat : Option ℕ

-- `struct file`
pub record OpenFile : Type 0 where
  pub idx : ℕ
  pub pathname : Buf
  pub flags : ℤ
  pub mode : ℤ
  pub ref_count : ℕ
  pub offset : ℕ
  pub fd : ℤ
  pub driver_data : Option ℕ
  pub ops : FileOps

abbrev pub no_ops : FileOps
no_ops = record {
  open_op = none;
  close = none;
  read = none;
  write = none;
  getdents = none;
  fstat = none;
}

-- A file after `k_memset(file, 0, ...)`.
abbrev pub zero_file : OpenFile
zero_file = record {
  idx = 0;
  pathname = λ i. 0;
  flags = pos 0;
  mode = pos 0;
  ref_count = 0;
  offset = 0;
  fd = pos 0;
  driver_data = none;
  ops = no_ops;
}

-- `struct dirent`
pub record Dirent : Type 0 where
  pub d_ino : ℕ
  pub d_reclen : ℕ
  pub d_type : ℕ
  pub d_name : Buf

-- `sizeof(struct dirent)`: 4 + 2 + 1 + 64 bytes, rounded up to the alignment of the first field.
abbrev pub dirent_size : ℕ
dirent_size = 72

abbrev pub dt_reg : ℕ
dt_reg = 1

abbrev pub dt_dir : ℕ
dt_dir = 2

abbrev pub dt_chr : ℕ
dt_chr = 3

-- An array of entries, and an array with the number of entries in use.
abbrev pub Dirents : Type 0
Dirents = ℕ → Dirent

-- `struct stat`, a time being the pair of its fields.
pub record Stat : Type 0 where
  pub st_dev : ℕ
  pub st_ino : ℕ
  pub st_mode : ℕ
  pub st_nlink : ℕ
  pub st_uid : ℕ
  pub st_gid : ℕ
  pub st_rdev : ℕ
  pub st_size : ℕ
  pub st_blksize : ℕ
  pub st_blocks : ℕ
  pub st_atim : ℕ × ℕ
  pub st_mtim : ℕ × ℕ
  pub st_ctim : ℕ × ℕ

abbrev pub zero_stat : Stat
zero_stat = record {
  st_dev = 0;
  st_ino = 0;
  st_mode = 0;
  st_nlink = 0;
  st_uid = 0;
  st_gid = 0;
  st_rdev = 0;
  st_size = 0;
  st_blksize = 0;
  st_blocks = 0;
  st_atim = (0, 0);
  st_mtim = (0, 0);
  st_ctim = (0, 0);
}

-- What the calls through function pointers do, to the file and to a state `W` of the devices.
pub record Drivers {ℓ} (W : Type ℓ) : Type ℓ where
  pub fs_open : ℕ → Option (OpenFile → W → ℤ × (OpenFile × W))
  pub close_op : ℕ → OpenFile → W → OpenFile × W
  pub write_op : ℕ → OpenFile → List ℕ → ℕ → W → ℤ × (OpenFile × W)
  pub read_op : ℕ → OpenFile → Buf → ℕ → W → ℤ × (OpenFile × (Buf × W))
  pub getdents_op : ℕ → OpenFile → Dirents → ℕ → W → ℤ × (OpenFile × (Dirents × W))
  pub fstat_op : ℕ → OpenFile → Stat → W → ℤ × (Stat × W)

-- The name of an entry, cut to the room for it.
pub put_name : Buf → Option (List ℕ) → Option Buf
put_name d_name none = some (update d_name 0 0)
put_name d_name (some name) = strlen name >>= (λ full.
    let len = if leb max_filename_len full then max_filename_len - 1 else full in
    memcpy (bytes d_name 0 max_filename_len) name len
    >>= (λ out. some (update (store d_name 0 out) len 0)))

-- `fs_add_entry`: the entries, the index and whether the entry was added.
pub add_entry : Dirents → ℕ → ℕ → ℕ → ℕ → Option (List ℕ) → Option (Bool × (Dirents × ℕ))
add_entry buf max_entries idx ino d_type name =
    if leb max_entries idx
    then some (false, (buf, idx))
    else put_name (buf idx).d_name name >>= (λ d_name. some (
      true,
      (
        update buf idx
            (record { d_ino = ino; d_reclen = dirent_size; d_type = d_type; d_name = d_name }),
        idx + 1,
      ),
    ))

-- `.` and `..`, as the string constants of the code.
abbrev pub dot : List ℕ
dot = b'.' ∷ 0 ∷ []

abbrev pub dot_dot : List ℕ
dot_dot = b'.' ∷ b'.' ∷ 0 ∷ []

-- `file->pos += size; return size;` at most 34 entries fit an `int`.
abbrev pub finish_list : OpenFile → Dirents × ℕ → ℤ × (OpenFile × Dirents)
finish_list file (buf, idx) =
    (pos (idx * dirent_size), (record file { offset = file.offset + idx * dirent_size }, buf))

-- The code that every `getdents` function of a file system writes out around its own entries: `self`
-- and `up` are the numbers of `.` and `..`, and `fill` adds the entries, given their greatest number.
unfoldable pub list_directory :
    ℕ
    → ℕ
    → (ℕ → Dirents × ℕ → Option (Dirents × ℕ))
    → OpenFile
    → Dirents
    → ℕ
    → Option (ℤ × (OpenFile × Dirents))
list_directory self up fill file buf count =
    if ltb count dirent_size
    then some (pos 0, (file, buf))
    else if ltb 0 file.offset
    then some (pos 0, (file, buf))
    else add_entry buf (count / dirent_size) 0 self dt_dir (some dot) >>= (λ first.
      add_entry first.1.0 (count / dirent_size) first.1.1 up dt_dir (some dot_dot) >>= (λ second.
        fill (count / dirent_size) second.1 >>= (λ listed. some (finish_list file listed))))
