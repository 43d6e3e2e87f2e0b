-- ===== src/Vfs/Close.antt =====
-- `vfs_close` of fs/vfs.c after `vfs_open`.
use punix.Base.{
  ℕ, ◌+◌, ◌<◌, ◌≤◌, ◌≡◌, inr, update_ne, ap, ◌∙◌, arith, Option, none, some, List, length, ◌>>=◌,
  update,
}
use punix.Base.Int.{ℤ, pos}
use punix.Buffer.{Buf}
use punix.Drivers.{Drivers, OpenFile, max_filename_len}
use punix.Files.{find_by_fd, free_fd}
use punix.Files.Lowest.{alloc-find-free}
use punix.FreeRing.Queue.{count}
use punix.Kutils.Strings.Text.{IsText, cstr}
use punix.Task.{Task}
use punix.Vfs.{Vfs, max_file_cnt, max_mounts}
use punix.Vfs.Longest.{WellMounted, Chosen}
use punix.Vfs.Calls.{State, vfs_open, run_close, close_file, vfs_close}
use punix.Vfs.Inv.{IsVfs, give-Rotated, free_file_lem}
use punix.Paths.Names.{canonical}
use punix.Paths.Resolve.{meant}
use punix.Vfs.Open.{replace_file}
use punix.Vfs.Outcome.{KeepsIdx, Undone, Failed, Opened, OpenResult}
use punix.Vfs.Total.{vfs_open_lem}

module _ {W : Type 0} (drivers : Drivers W) where
  -- Closing a file leaves the index of the file alone.
  abbrev pub ClosesKeepIdx : Type 0
  ClosesKeepIdx =
      (op : Option ℕ) (file : OpenFile) (w : W) → (run_close drivers op file w).0.idx ≡ file.idx

  -- The call closes the descriptor, which is free then; the rest is as it was in `s`.
  abbrev pub Closed : ℕ → State drivers → Option (ℤ × State drivers) → Type 0
  Closed fd s r =
      (s' : State drivers) × (r ≡ some (pos 0, s'))
      × Undone drivers s s'
      × (find_by_fd s'.0.files (pos fd) ≡ none)

  close-Opened :
      (found : Option ℕ) (flags mode : ℤ) (m : List ℕ) (keeps : ClosesKeepIdx) (fd : ℕ)
      (t t' : Task) (v v' : Vfs) (w w' : W)
      → count v.ring ≤ max_file_cnt
      → Opened drivers found flags mode m fd (t, (v, w)) (t', (v', w'))
      → Closed fd (t, (v, w)) (vfs_close drivers (pos fd) (t', (v', w')))
  unfolding vfs_close
  close-Opened found flags mode m keeps fd t t' v v' w w' full
        (file, rest, first, low, allocated, lowest, is, less, shift, others, mounts, made) =
      let (by_fd, gave, gone, undo) = alloc-find-free t.files file fd t'.files allocated in
      let op = (v'.files file).ops.close in
      let f = run_close drivers op (v'.files file) w' in
      let v2 = record v' { files = update v'.files file f.0 } in
      let (v3, eq, given) =
        free_file_lem v2 file (replace_file drivers v' file f.0 is (keeps op (v'.files file) w'))
          low (omega arith) in
      let (is3, more, last, same, kept, closed, mounts3) = given in
      let t3 = record t' { files = (free_fd t'.files (pos fd)).1 } in
      (
        (t3, (v3, f.1)),
        ap (λ o. close_file drivers (pos fd) o (t', (v', w'))) by_fd
            ∙ ap (λ o. o >>= (λ x. some (pos 0, (t3, (x, f.1))))) eq,
        (
          ap (λ (x : Task). record x { files = t3.files }) rest,
          undo,
          is3,
          more ∙ less,
          mounts3 ∙ mounts,
          inr (
              give-Rotated v v2 v3 file first less shift
                (λ g ne. update_ne v'.files file g f.0 ne ∙ others g ne) given),
        ),
        gone,
      )

  -- What can be done after `vfs_open`: a failure has its reason and has changed next to nothing, a
  -- success can be undone.
  abbrev pub Undoable :
      Option ℕ → ℤ → ℤ → List ℕ → State drivers → Option ℕ × State drivers → Type 0
  Undoable found flags mode m s (none, s1) =
      Undone drivers s s1 × Failed drivers found flags mode m s
  Undoable found flags mode m s (some fd, s1) = Closed fd s (vfs_close drivers (pos fd) s1)

  undoable :
      (found : Option ℕ) (flags mode : ℤ) (m : List ℕ) (t : Task) (v : Vfs) (w : W)
      (out : Option ℕ × State drivers)
      → ClosesKeepIdx
      → count v.ring ≤ max_file_cnt
      → OpenResult drivers found flags mode m (t, (v, w)) out
      → Undoable found flags mode m (t, (v, w)) out
  undoable found flags mode m t v w (none, s1) closes full done = done
  undoable found flags mode m t v w (some fd, (t1, (v1, w1))) closes full done =
      close-Opened found flags mode m closes fd t t1 v v1 w w1 full done

  -- `vfs_open` always returns. It fails only if no mount is above the path that the name means, or the
  -- longest of these has no file system; if there is no free file or no free descriptor; or if `open`
  -- of that file system returns a negative number. If it returns a descriptor, `vfs_close` on that
  -- returns 0, and the descriptor is free again. After this, or if it fails, the task and the mounts
  -- are as before, and the table of files is as before or differs in one file: the one that was the
  -- first free file is now the last one, and has no descriptor; what else it held may have changed.
  -- The other free files keep their order, and all other files their contents.
  -- The tables are well formed, the directory and the path are texts that leave room in a path
  -- buffer, and opening and closing a file through the function pointers keep the file's index.
  pub open-close :
      (keeps : KeepsIdx drivers) (closes : ClosesKeepIdx) (t : Task) (v : Vfs) (w : W)
      (d drest n nrest : List ℕ) (texts : ℕ → List ℕ) (flags mode : ℤ) (buf : Buf)
      → t.cwd ≡ cstr d drest
      → IsText d
      → IsText n
      → length d + length n + 4 < max_filename_len
      → IsVfs v
      → WellMounted v.mounts texts
      → (found : Option ℕ) × (len : ℕ) × (out : Option ℕ × State drivers) × Chosen v.mounts texts
          (canonical (meant d n))
          max_mounts
          found
          len
        × (vfs_open drivers (some (cstr n nrest)) flags mode buf (t, (v, w)) ≡ some out)
        × Undoable found flags mode (canonical (meant d n)) (t, (v, w)) out
  open-close keeps closes t v w d drest n nrest texts flags mode buf cwd textd textn room is well =
      let (found, len, chosen, (out, eq, done)) =
        vfs_open_lem drivers keeps t v w d drest n nrest texts flags mode buf cwd textd textn room
          is well in
      (
        found,
        len,
        out,
        chosen,
        eq,
        undoable found flags mode (canonical (meant d n)) t v w out closes
            (omega (arith, is.ring.fits)) done,
      )
