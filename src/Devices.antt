-- ===== src/Devices.antt =====
-- fs/dev_fs.c: the table of devices and the directory of them. `none` as a result is a string function
-- that leaves its object; what is printed on the console is left out.
pub mod Table
pub mod Listed
pub mod Register
mod Tests
use punix.Base.{
  ℕ, zero, suc, ◌+◌, ◌-◌, ◌*◌, ◌/◌, Bool, true, false, not, ◌&&◌, ◌||◌, Option, none, some, List,
  [], ◌∷◌, drop, get_elem?, leb, ltb, ◌==◌, if◌then◌else◌, ◌>>=◌, update,
}
use punix.Base.Int.{ℤ, pos, negsuc}
use punix.Buffer.{Buf, bytes, store}
use punix.Drivers.{
  OpenFile, Dirents, list_directory, add_entry, dirent_size, dt_dir, dt_chr, max_filename_len,
}
use punix.Kutils.Strings.{strcmp, strncmp, strncpy}
use punix.Paths.{is_slash, copy_string}

abbrev pub max_devices : ℕ
max_devices = 32

-- `struct dev_ops` of include/kernel/dev.h
pub record DevOps : Type 0 where
  pub open_op : Option ℕ
  pub close : Option ℕ
  pub read : Option ℕ
  pub write : Option ℕ

-- `sizeof(name)`
abbrev pub name_size : ℕ
name_size = 32

pub record Dev : Type 0 where
  pub name : Buf
  pub ops : Option DevOps
  pub driver_data : Option ℕ
  pub active : Bool

pub record Devices : Type 0 where
  pub devices : ℕ → Dev
  pub device_count : ℕ

pub clear_loop : ℕ → ℕ → (ℕ → Dev) → ℕ → Dev
clear_loop zero i devices = devices
clear_loop (suc left) i devices = clear_loop left (i + 1) (
    update devices i (record {
      name = update (devices i).name 0 0;
      ops = none;
      driver_data = none;
      active = false;
    }))

pub dev_init : Devices → Devices
dev_init d = record { devices = clear_loop max_devices 0 d.devices; device_count = 0 }

-- The loop for a free slot.
pub register_loop : ℕ → ℕ → Devices → List ℕ → DevOps → Option ℕ → Option (ℤ × Devices)
register_loop zero i d name ops driver_data = some (negsuc 0, d)
register_loop (suc left) i d name ops driver_data =
    let next = register_loop left (i + 1) d name ops driver_data in
    if (d.devices i).active
    then next
    else copy_string (d.devices i).name name_size 0 name >>= (λ copied. some (
      pos 0,
      record {
        devices =
            update d.devices i
              (record { name = copied; ops = some ops; driver_data = driver_data; active = true });
        device_count = d.device_count + 1;
      },
    ))

-- A null name, and null operations, are `none`.
pub dev_register : Devices → Option (List ℕ) → Option DevOps → Option ℕ → Option (ℤ × Devices)
dev_register d none ops driver_data = some (negsuc 0, d)
dev_register d (some name) none driver_data = some (negsuc 0, d)
dev_register d (some []) (some ops) driver_data =
    if leb max_devices d.device_count then some (negsuc 0, d) else none
dev_register d (some (c ∷ name)) (some ops) driver_data =
    if leb max_devices d.device_count
    then some (negsuc 0, d)
    else if is_slash c
    then some (negsuc 0, d)
    else register_loop max_devices 0 d (c ∷ name) ops driver_data

-- `k_strcmp(...) == 0`
abbrev pub same_name : Option ℤ → Option Bool
same_name none = none
same_name (some (pos zero)) = some true
same_name (some (pos (suc n))) = some false
same_name (some (negsuc n)) = some false

-- The index of the device, the inner `none` being the null pointer.
pub lookup_loop : ℕ → ℕ → (ℕ → Dev) → List ℕ → Option (Option ℕ)
lookup_loop zero i devices name = some none
lookup_loop (suc left) i devices name =
    let next = lookup_loop left (i + 1) devices name in
    if (devices i).active
    then same_name (strcmp (bytes (devices i).name 0 name_size) name)
      >>= (λ same. if same then some (some i) else next)
    else next

pub dev_lookup : Devices → Option (List ℕ) → Option (Option ℕ)
dev_lookup d none = some none
dev_lookup d (some name) = lookup_loop max_devices 0 d.devices name

-- The loop over the devices; the state is the buffer and the index.
pub list_loop : ℕ → ℕ → (ℕ → Dev) → ℕ → Dirents × ℕ → Option (Dirents × ℕ)
list_loop zero i devices max_entries (buf, idx) = some (buf, idx)
list_loop (suc left) i devices max_entries (buf, idx) =
    if leb max_entries idx
    then some (buf, idx)
    else if (devices i).active
    then add_entry buf max_entries idx (100 + i) dt_chr (some (bytes (devices i).name 0 name_size))
      >>= (λ added. list_loop left (i + 1) devices max_entries added.1)
    else list_loop left (i + 1) devices max_entries (buf, idx)

-- The buffer is not null.
pub dev_getdents : Devices → OpenFile → Dirents → ℕ → Option (ℤ × (OpenFile × Dirents))
dev_getdents d file buf count =
    list_directory 1 2 (λ max_entries. list_loop max_devices 0 d.devices max_entries) file buf count

-- The state of the devices behind the operations, and what a call of an `open` operation does.
module _ {ℓ} {W : Type ℓ} (run_open : ℕ → OpenFile → W → ℤ × (OpenFile × W)) where
  -- `if (dev->ops->open)`
  abbrev pub call_open : Option ℕ → OpenFile → W → ℤ × (OpenFile × W)
  call_open none file w = (pos 0, (file, w))
  call_open (some f) file w = run_open f file w

  -- What follows `dev_lookup`; `none` are null operations of a device.
  abbrev pub open_dev : Devices → Option ℕ → OpenFile → W → Option (ℤ × (OpenFile × W))
  open_dev d none file w = some (negsuc 0, (file, w))
  open_dev d (some i) file w = (d.devices i).ops >>= (λ ops. some (
      call_open ops.open_op
        (record file {
          driver_data = (d.devices i).driver_data;
          ops = record file.ops { write = ops.write; read = ops.read; close = ops.close };
        })
        w))

  -- What follows the test for `/dev`.
  abbrev pub open_path : Devices → OpenFile → W → Option (ℤ × (OpenFile × W))
  open_path d file w =
      if file.pathname 4 == 0 || (is_slash (file.pathname 4) && file.pathname 5 == 0)
      then some (pos 0, (file, w))
      else if not (is_slash (file.pathname 4))
      then some (negsuc 0, (file, w))
      else if file.pathname 5 == 0
      then some (negsuc 0, (file, w))
      else dev_lookup d (some (bytes file.pathname 5 (max_filename_len - 5)))
        >>= (λ found. open_dev d found file w)

  -- `listing` is the number of `dev_getdents` as an operation.
  pub dev_open : Devices → ℕ → OpenFile → W → Option (ℤ × (OpenFile × W))
  dev_open d listing file w =
      same_name
        (strncmp (bytes file.pathname 0 max_filename_len) (b'/' ∷ b'd' ∷ b'e' ∷ b'v' ∷ 0 ∷ []) 4)
      >>= (λ dev.
          if dev
          then open_path d (record file { ops = record file.ops { getdents = some listing } }) w
          else some (negsuc 0, (file, w)))
