-- ===== src/Vfs/Open.antt =====
-- `vfs_open` of fs/vfs.c from the choice of the file on: the lowest descriptor and the first free
-- file, or a failure that leaves at most that file changed.
use punix.Base.{
  ℕ, suc, ◌<◌, ◌≤◌, ◌≡◌, ◌≢◌, inl, inr, refl, sym, ap, ◌∙◌, arith, Option, none, some, List, length,
  ◌>>=◌, ℕ_discrete, dec_lt, update, update_self, update_ne,
}
use punix.Base.Int.{ℤ, pos, negsuc}
use punix.Buffer.{Buf, Holds}
use punix.Drivers.{Drivers, OpenFile, max_filename_len}
use punix.Files.{Files, rlimit_nofile, alloc_fd, free_fd}
use punix.Files.Lowest.{Allocated, alloc_fd_lowest, alloc-find-free}
use punix.FreeRing.Queue.{count, entry}
use punix.Kutils.Strings.Text.{IsText, cstr}
use punix.Task.{Task}
use punix.Vfs.{Vfs, file_bits, max_file_cnt}
use punix.Vfs.Calls.{run_open, prepare, settle, with_fd, with_file, open_on}
use punix.Vfs.Inv.{IsVfs, Taken, give-Rotated, alloc_file-none, alloc_file-some, free_file_lem}
use punix.Vfs.Mounts.{Holds-store, strcpy-buffer}
use punix.Vfs.Outcome.{KeepsIdx, Undone-refl, Prepared, Made, OpenDone}

module _ {W : Type 0} (drivers : Drivers W) where
  -- The file is put back with other contents but its index.
  pub replace_file :
      (v : Vfs) (file : ℕ) (f : OpenFile)
      → IsVfs v
      → f.idx ≡ (v.files file).idx
      → IsVfs (record v { files = update v.files file f })
  replace_file v file f is keeps = record {
    ring = is.ring;
    in_range = is.in_range;
    indexed = λ g h. elim (ℕ_discrete g file) [
      | yes e ↦
          ap (λ x. (update v.files file f x).idx) e
          ∙ ap (λ x. x.idx) (update_self v.files file f)
          ∙ keeps
          ∙ ap (λ x. (v.files x).idx) (sym e)
          ∙ is.indexed g h
      | no ne ↦ ap (λ x. x.idx) (update_ne v.files file g f ne) ∙ is.indexed g h
    ];
  }

  prepare-Prepared :
      (file old : OpenFile) (fd : ℕ) (flags mode : ℤ) (m rest : List ℕ)
      → file.idx ≡ old.idx
      → Prepared drivers flags mode m fd old (prepare drivers file fd flags mode (cstr m rest))
  prepare-Prepared file old fd flags mode m rest own = (
    own,
    refl,
    refl,
    refl,
    refl,
    refl,
    refl,
    refl,
    refl,
    refl,
    refl,
    Holds-store file.pathname 0 m rest,
  )

  settle_lem :
      (found : Option ℕ) (flags mode : ℤ) (m : List ℕ) (res : ℤ) (file fd : ℕ) (t : Task)
      (v v1 : Vfs) (w w1 : W) (files : Files)
      → IsVfs v1
      → (file ≡ entry file_bits v.ring 0)
        × (file < max_file_cnt)
        × (suc (count v1.ring) ≡ count v.ring)
        × ((k : ℕ) → entry file_bits v1.ring k ≡ entry file_bits v.ring (suc k))
        × ((g : ℕ) → g ≢ file → v1.files g ≡ v.files g)
        × (v1.mounts ≡ v.mounts)
      → count v.ring ≤ max_file_cnt
      → alloc_fd t.files (some file) ≡ some (some fd, files)
      → Allocated t.files file 0 rlimit_nofile (some fd, files)
      → Made drivers found flags mode m res file fd
          (t, (v, w))
          (record t { files = files }, (v1, w1))
      → OpenDone drivers found flags mode m
          (t, (v, w))
          (settle drivers res file fd (record t { files = files }, (v1, w1)))
  settle_lem found flags mode m (pos n) file fd t v v1 w w1 files is
        (first, low, less, shift, others, mounts) full allocated lowest made =
      (
        (some fd, (record t { files = files }, (v1, w1))),
        refl,
        (file, refl, first, low, allocated, lowest, is, less, shift, others, mounts, (n, made)),
      )
  settle_lem found flags mode m (negsuc n) file fd t v v1 w w1 files is
        (first, low, less, shift, others, mounts) full allocated lowest made =
      let (v2, eq, given) = free_file_lem v1 file is low (omega arith) in
      let (is2, more, last, same, kept, closed, mounts2) = given in
      let (by_fd, gave, gone, undo) = alloc-find-free t.files file fd files allocated in
      (
        (none, (record t { files = (free_fd files (pos fd)).1 }, (v2, w1))),
        ap
            (λ o.
              o
              >>= (λ v'. some (none, (record t { files = (free_fd files (pos fd)).1 }, (v', w1)))))
            eq,
        (
          (
            refl,
            undo,
            is2,
            more ∙ less,
            mounts2 ∙ mounts,
            inr (give-Rotated v v1 v2 file first less shift others given),
          ),
          inr (
              inr (
                inr (file, fd, n, (record t { files = files }, (v1, w1)), first, allocated, made))),
        ),
      )

  module _ (keeps : KeepsIdx drivers) (fs : ℕ) (flags mode : ℤ) (resolved : Buf) (m : List ℕ)
      (text : IsText m) (holds : Holds resolved 0 m) (short : length m < max_filename_len)
      (t : Task) (v : Vfs) (w : W) (is : IsVfs v) (full : count v.ring ≤ max_file_cnt) where
    with_fd_lem :
        (file : ℕ) (v1 : Vfs) (r : Option ℕ × Files)
        → Taken v file v1
        → alloc_fd t.files (some file) ≡ some r
        → Allocated t.files file 0 rlimit_nofile r
        → OpenDone drivers
            (some fs)
            flags
            mode
            m
            (t, (v, w))
            (with_fd drivers fs flags mode resolved file r.0 (record t { files = r.1 }, (v1, w)))
    with_fd_lem file v1 (none, files) (is1, first, low, less, shift, same, mounts) allocated
          (kept, used) =
        let (v2, eq, given) = free_file_lem v1 file is1 low (omega arith) in
        let (is2, more, last, same2, kept2, closed, mounts2) = given in
        (
          (none, (record t { files = files }, (v2, w))),
          ap (λ o. o >>= (λ v'. some (none, (record t { files = files }, (v', w))))) eq,
          (
            (
              refl,
              λ k. ap (λ f. f k) kept,
              is2,
              more ∙ less,
              mounts2 ∙ mounts,
              inr (give-Rotated v v1 v2 file first less shift (λ g ne. ap (λ x. x g) same) given),
            ),
            inr (inr (inl (λ k below. used k (omega arith) below))),
          ),
        )
    with_fd_lem file v1 (some fd, files) (is1, first, low, less, shift, same, mounts) allocated
          lowest =
        let (rest, copied) = strcpy-buffer (v1.files file).pathname resolved m text holds short in
        let f = prepare drivers (v1.files file) fd flags mode (cstr m rest) in
        let out = run_open drivers (drivers.fs_open fs) f w in
        let v2 = record v1 { files = update v1.files file out.1.0 } in
        let (r, eq, done) =
          settle_lem (some fs) flags mode m out.0 file fd t v v2 w out.1.1 files
            (replace_file v1 file out.1.0 is1 (keeps fs f w))
            (
              first,
              low,
              less,
              shift,
              λ g ne. update_ne v1.files file g out.1.0 ne ∙ ap (λ x. x g) same,
              mounts,
            )
            full allocated lowest
            (
              fs,
              f,
              refl,
              prepare-Prepared (v1.files file) (v.files file) fd flags mode m rest
                  (ap (λ x. (x file).idx) same),
              refl,
              update_self v1.files file out.1.0,
              refl,
            ) in
        (
          r,
          ap
                (λ o. o >>= (λ name.
                  let opened =
                    run_open drivers (drivers.fs_open fs)
                      (prepare drivers (v1.files file) fd flags mode name) w in
                  settle drivers opened.0 file fd (
                    record t { files = files },
                    (record v1 { files = update v1.files file opened.1.0 }, opened.1.1),
                  )))
                copied
              ∙ eq,
          done,
        )

    pub open_on_lem :
        OpenDone drivers
          (some fs)
          flags
          mode
          m
          (t, (v, w))
          (open_on drivers (some fs) flags mode resolved (t, (v, w)))
    open_on_lem = elim (dec_lt 0 (count v.ring)) [
      | no empty ↦ (
        (none, (t, (v, w))),
        ap (λ o. with_file drivers fs flags mode resolved o (t, (v, w)))
            (alloc_file-none v is (omega arith)),
        (Undone-refl drivers (t, (v, w)) is, inr (inl (omega arith))),
      )
      | yes some_free ↦
          let (file, v1, taken_eq, taken) = alloc_file-some v is some_free in
          let (r, alloc_eq, allocated, null) = alloc_fd_lowest t.files file in
          let (out, eq, done) = with_fd_lem file v1 r taken alloc_eq allocated in
          (
            out,
            ap (λ o. with_file drivers fs flags mode resolved o (t, (v, w))) taken_eq
                ∙ ap
                    (λ o. o >>= (λ (fd, files).
                      with_fd drivers fs flags mode resolved file fd
                        (record t { files = files }, (v1, w))))
                    alloc_eq
                ∙ eq,
            done,
          )
    ]
