-- ===== src/Vfs/Calls.antt =====
-- The calls of fs/vfs.c on open files. `W` is the state of the devices behind the function pointers;
-- `none` as a result is a panic, or a string function that leaves its object. What is printed on the
-- console is left out.
use punix.Base.{ℕ, ◌-◌, Option, none, some, List, ◌==◌, if◌then◌else◌, ◌>>=◌, update, set}
use punix.Base.Int.{ℤ, pos, negsuc}
use punix.Buffer.{Buf, bytes, store}
use punix.Drivers.{Drivers, OpenFile, Dirents, Stat, zero_stat, max_filename_len, dirent_size}
use punix.Files.{alloc_fd, free_fd, find_by_fd}
use punix.Kutils.Strings.{strcpy, strncpy}
use punix.Paths.{resolve_path}
use punix.Sched.{Sched, schedule}
use punix.Task.{Task}
use punix.Vfs.{Vfs, alloc_file, free_file, path_to_fs}

-- `-EINVAL`
abbrev pub einval : ℤ
einval = negsuc 21

module _ {ℓ} {W : Type ℓ} (drivers : Drivers W) where
  -- The task, the tables and the devices.
  abbrev pub State : Type ℓ
  State = Task × (Vfs × W)

  -- `fs->open`, if there is one.
  abbrev pub run_open :
      Option (OpenFile → W → ℤ × (OpenFile × W)) → OpenFile → W → ℤ × (OpenFile × W)
  run_open none file w = (pos 0, (file, w))
  run_open (some f) file w = f file w

  -- The fields that `vfs_open` sets; `open` of the operations is not among them.
  abbrev pub prepare : OpenFile → ℕ → ℤ → ℤ → List ℕ → OpenFile
  prepare file fd flags mode name = record file {
    driver_data = none;
    fd = pos fd;
    offset = 0;
    flags = flags;
    mode = mode;
    ops = record file.ops {
      getdents = none;
      close = none;
      write = none;
      read = none;
      fstat = none;
    };
    pathname = store file.pathname 0 name;
  }

  -- What follows `fs->open`: a failure gives back the descriptor and the file.
  abbrev pub settle : ℤ → ℕ → ℕ → State → Option (Option ℕ × State)
  settle (pos n) file fd state = some (some fd, state)
  settle (negsuc n) file fd (t, (v, w)) =
      free_file v file
      >>= (λ v'. some (none, (record t { files = (free_fd t.files (pos fd)).1 }, (v', w))))

  -- What follows `files_alloc_fd`.
  abbrev pub with_fd : ℕ → ℤ → ℤ → Buf → ℕ → Option ℕ → State → Option (Option ℕ × State)
  with_fd fs flags mode resolved file none (t, (v, w)) =
      free_file v file >>= (λ v'. some (none, (t, (v', w))))
  with_fd fs flags mode resolved file (some fd) (t, (v, w)) =
      strcpy (bytes (v.files file).pathname 0 max_filename_len) (bytes resolved 0 max_filename_len)
      >>= (λ name.
          let (res, (file', w')) =
            run_open (drivers.fs_open fs) (prepare (v.files file) fd flags mode name) w in
          settle res file fd (t, (record v { files = update v.files file file' }, w')))

  -- What follows `vfs_alloc_file`.
  abbrev pub with_file : ℕ → ℤ → ℤ → Buf → Option (ℕ × Vfs) → State → Option (Option ℕ × State)
  with_file fs flags mode resolved none state = some (none, state)
  with_file fs flags mode resolved (some (file, v1)) (t, (v, w)) =
      alloc_fd t.files (some file) >>= (λ (fd, files).
        with_fd fs flags mode resolved file fd (record t { files = files }, (v1, w)))

  -- What follows `path_to_fs`.
  abbrev pub open_on : Option ℕ → ℤ → ℤ → Buf → State → Option (Option ℕ × State)
  open_on none flags mode resolved state = some (none, state)
  open_on (some fs) flags mode resolved (t, (v, w)) =
      with_file fs flags mode resolved (alloc_file v) (t, (v, w))

  -- The result is the descriptor, `none` for -1; `buf` is the array on the stack.
  unfoldable pub vfs_open : Option (List ℕ) → ℤ → ℤ → Buf → State → Option (Option ℕ × State)
  vfs_open pathname flags mode buf (t, (v, w)) =
      resolve_path t.cwd pathname buf max_filename_len >>= (λ resolved.
        path_to_fs v (bytes resolved 0 max_filename_len)
        >>= (λ fs. open_on fs flags mode resolved (t, (v, w))))

  abbrev pub run_close : Option ℕ → OpenFile → W → OpenFile × W
  run_close none file w = (file, w)
  run_close (some op) file w = drivers.close_op op file w

  -- What follows `files_find_by_fd`.
  abbrev pub close_file : ℤ → Option ℕ → State → Option (ℤ × State)
  close_file fd none state = some (negsuc 0, state)
  close_file fd (some file) (t, (v, w)) =
      let (file', w') = run_close (v.files file).ops.close (v.files file) w in
      free_file (record v { files = update v.files file file' }) file
      >>= (λ v'. some (pos 0, (record t { files = (free_fd t.files fd).1 }, (v', w'))))

  -- The task is not null.
  unfoldable pub vfs_close : ℤ → State → Option (ℤ × State)
  vfs_close (negsuc n) state = some (negsuc 0, state)
  vfs_close (pos n) (t, (v, w)) = close_file (pos n) (find_by_fd t.files (pos n)) (t, (v, w))

  -- The calls that go on to an operation of the file: the file and the number of the operation.
  abbrev pub with_op : (OpenFile → Option ℕ) → Vfs → Option ℕ → Option (ℕ × ℕ)
  with_op op v none = none
  with_op op v (some file) = op (v.files file) >>= (λ f. some (file, f))

  abbrev pub find_op : (OpenFile → Option ℕ) → Vfs → Option Task → ℤ → Option (ℕ × ℕ)
  find_op op v none fd = none
  find_op op v (some t) fd = with_op op v (find_by_fd t.files fd)

  abbrev pub do_write : Option (ℕ × ℕ) → List ℕ → ℕ → Vfs × W → ℤ × (Vfs × W)
  do_write none buf count state = (negsuc 0, state)
  do_write (some (file, f)) buf count (v, w) =
      let (r, (file', w')) = drivers.write_op f (v.files file) buf count w in
      (r, (record v { files = update v.files file file' }, w'))

  -- A null buffer is `none`.
  unfoldable pub vfs_write : Option Task → ℤ → Option (List ℕ) → ℕ → Vfs × W → ℤ × (Vfs × W)
  vfs_write current fd none count state = (pos 0, state)
  vfs_write current fd (some buf) count (v, w) =
      if count == 0
      then (pos 0, (v, w))
      else do_write (find_op (λ file. file.ops.write) v current fd) buf count (v, w)

  abbrev pub do_read : Option (ℕ × ℕ) → Buf → ℕ → Vfs × W → ℤ × (Buf × (Vfs × W))
  do_read none buf count state = (negsuc 0, (buf, state))
  do_read (some (file, f)) buf count (v, w) =
      let (r, (file', (buf', w'))) = drivers.read_op f (v.files file) buf count w in
      (r, (buf', (record v { files = update v.files file file' }, w')))

  -- From the return of `sched_schedule` on, with the task that is then current; the buffer is not
  -- null.
  abbrev read_resumed : Option Task → ℤ → Buf → ℕ → Vfs × W → ℤ × (Buf × (Vfs × W))
  read_resumed current fd buf count (v, w) =
      if count == 0
      then (pos 0, (buf, (v, w)))
      else do_read (find_op (λ file. file.ops.read) v current fd) buf count (v, w)

  -- `sched_schedule` comes first, whatever the buffer. The result is the scheduler at the switch,
  -- and what the call does when the caller runs again: other tasks may have changed all it is
  -- applied to by then. `none` as the buffer is the null pointer, and the outer `none` an access
  -- through one.
  abbrev read_on : ℤ → Option Buf → ℕ → Option Task → Vfs × W → ℤ × (Option Buf × (Vfs × W))
  read_on fd none count current state = (pos 0, (none, state))
  read_on fd (some buf) count current state =
      let (r, (buf', state')) = read_resumed current fd buf count state in (r, (some buf', state'))

  unfoldable pub vfs_read :
      Sched
      → ℤ
      → Option Buf
      → ℕ
      → Option (Sched × (Option Task → Vfs × W → ℤ × (Option Buf × (Vfs × W))))
  vfs_read s fd buf count = schedule s >>= (λ s'. some (s', read_on fd buf count))

  abbrev pub do_getdents : Option (ℕ × ℕ) → Dirents → ℕ → Vfs × W → ℤ × (Dirents × (Vfs × W))
  do_getdents none buf count state = (negsuc 0, (buf, state))
  do_getdents (some (file, f)) buf count (v, w) =
      let (r, (file', (buf', w'))) = drivers.getdents_op f (v.files file) buf count w in
      (r, (buf', (record v { files = update v.files file file' }, w')))

  unfoldable pub vfs_getdents : Option Task → ℤ → Dirents → ℕ → Vfs × W → ℤ × (Dirents × (Vfs × W))
  vfs_getdents current fd buf count (v, w) =
      do_getdents (find_op (λ file. file.ops.getdents) v current fd) buf count (v, w)

  -- `file_ops.fstat` is called with a cleared `struct stat`.
  abbrev pub run_fstat : Option ℕ → OpenFile → W → ℤ × (Stat × W)
  run_fstat none file w = (pos 0, (zero_stat, w))
  run_fstat (some op) file w = drivers.fstat_op op file zero_stat w

  abbrev pub do_fstat : Option ℕ → Stat → Vfs × W → ℤ × (Stat × W)
  do_fstat none stat (v, w) = (negsuc 0, (stat, w))
  do_fstat (some file) stat (v, w) = run_fstat (v.files file).ops.fstat (v.files file) w

  -- The task and the `struct stat` are not null.
  unfoldable pub vfs_fstat : Task → ℤ → Stat → Vfs × W → ℤ × (Stat × W)
  vfs_fstat t fd stat state = do_fstat (find_by_fd t.files fd) stat state

  -- `k_strncpy(current->cwd, resolved, ...)` with the terminator at the end.
  abbrev pub set_cwd : Task → Buf → Option Task
  set_cwd t resolved =
      strncpy t.cwd (bytes resolved 0 max_filename_len) max_filename_len
      >>= (λ cwd. some (record t { cwd = set cwd (max_filename_len - 1) 0 }))

  -- What follows `vfs_close` of the directory, whose result is not looked at.
  abbrev pub change_dir : ℤ → Buf → State → Option (ℤ × State)
  change_dir (negsuc n) resolved state = some (negsuc n, state)
  change_dir (pos n) resolved (t, (v, w)) =
      set_cwd t resolved >>= (λ t'. some (pos 0, (t', (v, w))))

  -- What follows `vfs_open` of the directory.
  abbrev pub with_dir : Dirents → Buf → Option ℕ × State → Option (ℤ × State)
  with_dir dirent resolved (none, state) = some (negsuc 0, state)
  with_dir dirent resolved (some fd, (t, (v, w))) =
      let (result, (dirent', (v', w'))) =
        vfs_getdents (some t) (pos fd) dirent dirent_size (v, w) in
      vfs_close (pos fd) (t, (v', w')) >>= (λ (closed, state). change_dir result resolved state)

  -- `dirent`, `buf` and `buf2` are the objects on the stacks of this function and of `vfs_open`;
  -- there is a running task.
  unfoldable pub vfs_chdir : Option (List ℕ) → Dirents → Buf → Buf → State → Option (ℤ × State)
  vfs_chdir none dirent buf buf2 state = some (einval, state)
  vfs_chdir (some path) dirent buf buf2 (t, (v, w)) =
      resolve_path t.cwd (some path) buf max_filename_len >>= (λ resolved.
        vfs_open (some (bytes resolved 0 max_filename_len)) (pos 0) (pos 0) buf2 (t, (v, w))
        >>= (λ opened. with_dir dirent resolved opened))
