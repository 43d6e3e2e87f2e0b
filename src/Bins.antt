-- ===== src/Bins.antt =====
-- fs/bin_fs.c: the programs that are linked into the kernel, as files. The array of the programs and
-- `find_bin` are arguments; a pointer to a program is its index.
pub mod Reading
mod Tests
use punix.Base.{
  ℕ, zero, suc, ◌+◌, ◌-◌, Bool, true, false, not, ◌&&◌, ◌||◌, Option, none, some, List, [], ◌∷◌,
  length, drop, get_elem?, leb, ltb, ◌==◌, if◌then◌else◌, ◌>>=◌, update,
}
use punix.Base.Int.{ℤ, pos, negsuc}
use punix.Buffer.{Buf, bytes, store}
use punix.Devices.{same_name}
use punix.Drivers.{
  OpenFile, Dirents, Stat, put_name, list_directory, dirent_size, dt_reg, max_filename_len,
}
use punix.Kutils.Strings.{memcpy, strcmp, strrchr}

-- `struct embedded_bin`: the name, and the bytes from `start` to `end`.
pub record EmbeddedBin : Type 0 where
  pub name : List ℕ
  pub image : List ℕ

-- `bin_read` from the test of the position on.
abbrev pub read_bin : EmbeddedBin → OpenFile → Buf → ℕ → Option (ℤ × (OpenFile × Buf))
read_bin bin file buf count =
    let size = length bin.image in
    let remaining = size - file.offset in
    let to_read = if ltb count remaining then count else remaining in
    if leb size file.offset
    then some (pos 0, (file, buf))
    else memcpy (bytes buf 0 to_read) (drop file.offset bin.image) to_read >>= (λ out.
      some (pos to_read, (record file { offset = file.offset + to_read }, store buf 0 out)))

abbrev pub read_data :
    List EmbeddedBin → Option ℕ → OpenFile → Buf → ℕ → Option (ℤ × (OpenFile × Buf))
read_data bins none file buf count = some (negsuc 0, (file, buf))
read_data bins (some i) file buf count = get_elem? bins i >>= (λ bin. read_bin bin file buf count)

-- Neither the file nor the buffer is null.
pub bin_read : List EmbeddedBin → OpenFile → Buf → ℕ → Option (ℤ × (OpenFile × Buf))
bin_read bins file buf count = read_data bins file.driver_data file buf count

-- `S_IFDIR | 0555` and `S_IFREG | 0555`
abbrev pub dir_mode : ℕ
dir_mode = 16749

abbrev pub reg_mode : ℕ
reg_mode = 33133

abbrev pub stat_data : List EmbeddedBin → Option ℕ → Stat → Option (ℤ × Stat)
stat_data bins none stat =
    some (pos 0, record stat { st_mode = dir_mode; st_nlink = 1; st_size = 0 })
stat_data bins (some i) stat = get_elem? bins i >>= (λ bin.
    some (pos 0, record stat { st_mode = reg_mode; st_nlink = 1; st_size = length bin.image }))

pub bin_fstat : List EmbeddedBin → OpenFile → Stat → Option (ℤ × Stat)
bin_fstat bins file stat = stat_data bins file.driver_data stat

-- The name behind the last slash, if there is one behind it.
abbrev pub base_name : List ℕ → Option ℕ → Option (List ℕ)
base_name name none = some name
base_name name (some p) =
    get_elem? name (p + 1) >>= (λ c. some (if c == 0 then name else drop (p + 1) name))

-- `fill_dirent_from_bin`
pub fill_dirent : Dirents → ℕ → EmbeddedBin → ℕ → Option Dirents
fill_dirent buf idx bin ino = strrchr bin.name b'/' >>= (λ p. base_name bin.name p >>= (λ base.
    put_name (buf idx).d_name (some base) >>= (λ d_name. some (
      update buf idx
        (record { d_ino = ino; d_reclen = dirent_size; d_type = dt_reg; d_name = d_name })))))

-- The loop of `elf_fill_bin_dirents` over the programs from `i` on; `buf` is the whole array of
-- `bin_getdents`, and `idx` an index of that.
pub fill_bins : List EmbeddedBin → ℕ → ℕ → Dirents × ℕ → Option (Dirents × ℕ)
fill_bins [] i max_entries (buf, idx) = some (buf, idx)
fill_bins (bin ∷ bins) i max_entries (buf, idx) =
    if ltb idx max_entries
    then fill_dirent buf idx bin (i + 1)
      >>= (λ buf'. fill_bins bins (i + 1) max_entries (buf', idx + 1))
    else some (buf, idx)

pub bin_getdents : List EmbeddedBin → OpenFile → Dirents → ℕ → Option (ℤ × (OpenFile × Dirents))
bin_getdents bins file buf count =
    list_directory 1 1 (λ max_entries. fill_bins bins 0 max_entries) file buf count

-- The numbers of the operations.
pub record BinOps : Type 0 where
  pub read : ℕ
  pub getdents : ℕ
  pub fstat : ℕ

-- What follows the tests for the directory; `found` is what `find_bin` returns.
abbrev pub open_bin : OpenFile → Option ℕ → ℤ × OpenFile
open_bin file none = (negsuc 0, file)
open_bin file (some i) = (pos 0, record file { driver_data = some i })

-- `bin_open`, with `bin_lookup`.
pub bin_open : (List ℕ → Option ℕ) → BinOps → OpenFile → Option (ℤ × OpenFile)
bin_open find_bin ops file =
    let path = bytes file.pathname 0 max_filename_len in
    let file' = record file {
      ops = record file.ops {
        read = some ops.read;
        getdents = some ops.getdents;
        fstat = some ops.fstat;
      };
    } in
    same_name (strcmp path (b'/' ∷ b'b' ∷ b'i' ∷ b'n' ∷ 0 ∷ [])) >>= (λ dir.
      if dir
      then some (pos 0, file')
      else same_name (strcmp path (b'/' ∷ b'b' ∷ b'i' ∷ b'n' ∷ b'/' ∷ 0 ∷ [])) >>= (λ slashed.
        if slashed
        then some (pos 0, file')
        else if file.pathname 0 == 0
        then some (negsuc 0, file')
        else some (open_bin file' (find_bin path))))
