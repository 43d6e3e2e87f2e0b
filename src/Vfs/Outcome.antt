-- ===== src/Vfs/Outcome.antt =====
-- What `vfs_open` of fs/vfs.c promises: the file opened, or the reason of the failure.
use punix.Base.{ℕ, suc, ◌<◌, ◌≡◌, ◌≢◌, ◌⊎◌, inl, refl, Option, none, some, List}
use punix.Base.Int.{ℤ, pos, negsuc}
use punix.Buffer.{Holds}
use punix.Drivers.{Drivers, OpenFile}
use punix.Files.{rlimit_nofile, alloc_fd}
use punix.Files.Lowest.{Allocated}
use punix.FreeRing.Queue.{count, entry}
use punix.Vfs.{file_bits, max_file_cnt}
use punix.Vfs.Calls.{State, run_open}
use punix.Vfs.Inv.{IsVfs, Rotated}

module _ {W : Type 0} (drivers : Drivers W) where
  -- Opening a file through a file system leaves the index of the file alone.
  abbrev pub KeepsIdx : Type 0
  KeepsIdx =
      (fs : ℕ) (file : OpenFile) (w : W)
      → (run_open drivers (drivers.fs_open fs) file w).1.0.idx ≡ file.idx

  -- The task and the mounts are as before. The table of files is too, or its first free file is now
  -- the last one, and only that file has changed.
  abbrev pub Undone : State drivers → State drivers → Type 0
  Undone (t, (v, w)) (t', (v', w')) =
      (t' ≡ record t { files = t'.files })
      × ((k : ℕ) → t'.files k ≡ t.files k)
      × IsVfs v'
      × (count v'.ring ≡ count v.ring)
      × (v'.mounts ≡ v.mounts)
      × ((v' ≡ v) ⊎ Rotated v v')

  -- What the file `f` is when `open` of the file system gets it: it has the descriptor, the flags, the
  -- mode, the path `m`, the position 0, the index of the old one, and no operation but `open`.
  abbrev pub Prepared : ℤ → ℤ → List ℕ → ℕ → OpenFile → OpenFile → Type 0
  Prepared flags mode m fd old f =
      (f.idx ≡ old.idx)
      × (f.fd ≡ pos fd)
      × (f.offset ≡ 0)
      × (f.flags ≡ flags)
      × (f.mode ≡ mode)
      × (f.driver_data ≡ none)
      × (f.ops.read ≡ none)
      × (f.ops.write ≡ none)
      × (f.ops.close ≡ none)
      × (f.ops.getdents ≡ none)
      × (f.ops.fstat ≡ none)
      × Holds f.pathname 0 m

  -- How a file is opened: the file system, the flags, the mode and the path.
  module _ (found : Option ℕ) (flags mode : ℤ) (m : List ℕ) where
    -- There is a file system, and its `open` gave the result, and left the file and the devices so.
    abbrev pub Made : ℤ → ℕ → ℕ → State drivers → State drivers → Type 0
    Made result file fd (t, (v, w)) (t', (v', w')) =
        (fs : ℕ) × (f : OpenFile) × (found ≡ some fs)
        × Prepared flags mode m fd (v.files file) f
        × ((run_open drivers (drivers.fs_open fs) f w).0 ≡ result)
        × (v'.files file ≡ (run_open drivers (drivers.fs_open fs) f w).1.0)
        × (w' ≡ (run_open drivers (drivers.fs_open fs) f w).1.1)

    -- The file is the first of the free ones, and stands under the lowest free descriptor. No other
    -- file has changed.
    abbrev pub Opened : ℕ → State drivers → State drivers → Type 0
    Opened fd (t, (v, w)) (t', (v', w')) =
        (file : ℕ) × (t' ≡ record t { files = t'.files })
        × (file ≡ entry file_bits v.ring 0)
        × (file < max_file_cnt)
        × (alloc_fd t.files (some file) ≡ some (some fd, t'.files))
        × Allocated t.files file 0 rlimit_nofile (some fd, t'.files)
        × IsVfs v'
        × (suc (count v'.ring) ≡ count v.ring)
        × ((k : ℕ) → entry file_bits v'.ring k ≡ entry file_bits v.ring (suc k))
        × ((g : ℕ) → g ≢ file → v'.files g ≡ v.files g)
        × (v'.mounts ≡ v.mounts)
        × ((n : ℕ) × Made (pos n) file fd (t, (v, w)) (t', (v', w')))

    -- Why a file cannot be opened: no file system, no file, no descriptor, or an `open` that fails.
    abbrev pub Failed : State drivers → Type 0
    Failed (t, (v, w)) =
        (found ≡ none)
        ⊎ ((count v.ring ≡ 0)
            ⊎ (((k : ℕ) → k < rlimit_nofile → t.files k ≢ none)
                ⊎ ((file : ℕ) × (fd : ℕ) × (n : ℕ) × (s1 : State drivers) × (file
                      ≡ entry file_bits v.ring 0)
                    × (alloc_fd t.files (some file) ≡ some (some fd, s1.0.files))
                    × Made (negsuc n) file fd (t, (v, w)) s1)))

    abbrev pub OpenResult : State drivers → Option ℕ × State drivers → Type 0
    OpenResult s (none, s') = Undone s s' × Failed s
    OpenResult s (some fd, s') = Opened fd s s'

    abbrev pub OpenDone : State drivers → Option (Option ℕ × State drivers) → Type 0
    OpenDone s r = (out : Option ℕ × State drivers) × (r ≡ some out) × OpenResult s out

  pub Undone-refl : (s : State drivers) → IsVfs s.1.0 → Undone s s
  Undone-refl (t, (v, w)) is = (refl, λ k. refl, is, refl, refl, inl refl)
