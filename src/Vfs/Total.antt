-- ===== src/Vfs/Total.antt =====
-- `vfs_open` of fs/vfs.c from the path on always returns.
use punix.Base.{
  ℕ, ◌+◌, ◌<◌, ◌≤◌, ◌≡◌, refl, ap, ◌∙◌, arith, Bool-cases, inl, inr, Option, none, some, List, [],
  ◌∷◌, length, length-append, ◌>>=◌,
}
use punix.Base.Int.{ℤ}
use punix.Buffer.{Buf, bytes, store, Holds}
use punix.Drivers.{Drivers, max_filename_len}
use punix.Kutils.Strings.Text.{IsText, cstr}
use punix.Paths.{max_segments, resolve_path}
use punix.Paths.Names.{canonical}
use punix.Paths.Normal.{bytes-cstr}
use punix.Paths.Absolute.{normalize_lem}
use punix.Paths.Append.{IsText-append}
use punix.Paths.Resolve.{starts_slash, meant, resolve_lem}
use punix.Paths.Canonical.{canonical-IsText}
use punix.Task.{Task}
use punix.Vfs.{Vfs, max_mounts, path_to_fs}
use punix.Vfs.Longest.{WellMounted, Chosen, path_to_fs-Chosen}
use punix.Vfs.Mounts.{Holds-store}
use punix.Vfs.Calls.{State, open_on, vfs_open}
use punix.Vfs.Inv.{IsVfs}
use punix.Vfs.Open.{open_on_lem}
use punix.Vfs.Outcome.{KeepsIdx, OpenDone, Undone-refl}

-- A canonical path is at most one character longer: in a buffer that is large enough.
length-canonical :
    (t : List ℕ) → IsText t → length t < max_segments → length (canonical t) ≤ length t + 1
length-canonical t text few =
    let buf : Buf = store (λ i. 0) 0 (cstr t []) in
    let (p, eq, reads, small, above) =
      normalize_lem buf (length t + 3) t text (Holds-store (λ i. 0) 0 t []) (omega arith) few in
    small

length-meant : (d n : List ℕ) → length (meant d n) ≤ length d + length n + 1
length-meant d n = elim (Bool-cases (starts_slash n)) [
  | inl q ↦ rw q (omega arith)
  | inr q ↦ rw q (omega (arith, length-append d (b'/' ∷ n)))
]

meant-IsText : (d n : List ℕ) → IsText d → IsText n → IsText (meant d n)
meant-IsText d n td tn = elim (Bool-cases (starts_slash n)) [
  | inl q ↦ rw q tn
  | inr q ↦ rw q (IsText-append d (b'/' ∷ n) td (omega arith, tn))
]

module _ {W : Type 0} (drivers : Drivers W) where
  open_on-none :
      (flags mode : ℤ) (resolved : Buf) (s : State drivers) (r : Option ℕ)
      → KeepsIdx drivers
      → (m : List ℕ) → IsText m
      → Holds resolved 0 m
      → length m < max_filename_len
      → IsVfs s.1.0
      → OpenDone drivers r flags mode m s (open_on drivers r flags mode resolved s)
  open_on-none flags mode resolved s none keeps m text holds short is =
      ((none, s), refl, (Undone-refl drivers s is, inl refl))
  open_on-none flags mode resolved (t, (v, w)) (some fs) keeps m text holds short is =
      open_on_lem drivers keeps fs flags mode resolved m text holds short t v w is
        (omega (arith, is.ring.fits))

  -- `vfs_open` always returns, and without a panic. Let the path be the canonical form of what the
  -- name means in the directory of the task, and the file system that of a mount above the path whose
  -- own path is the longest. Either the first free file is open under the lowest free descriptor: it
  -- was given the descriptor, the flags, the mode, the path and the position 0, and is then as `open`
  -- of the file system left it; all other files, the order of the free ones and the mounts are as
  -- before. Or the call fails, because there is no such file system, no free file or no free
  -- descriptor, or because `open` returned a negative number: then the task and the mounts are as
  -- before, and so is the table of files, or its first free file is now the last one, which has no
  -- descriptor, and all other files are as before.
  -- The tables are well formed, the directory and the path are texts that leave room in a path
  -- buffer, and opening a file through a file system keeps the file's index.
  pub vfs_open_lem :
      (keeps : KeepsIdx drivers) (t : Task) (v : Vfs) (w : W) (d drest n nrest : List ℕ)
      (texts : ℕ → List ℕ) (flags mode : ℤ) (buf : Buf)
      → t.cwd ≡ cstr d drest
      → IsText d
      → IsText n
      → length d + length n + 4 < max_filename_len
      → IsVfs v
      → WellMounted v.mounts texts
      → (found : Option ℕ) × (len : ℕ) × Chosen v.mounts texts
          (canonical (meant d n))
          max_mounts
          found
          len
        × OpenDone drivers found flags mode
            (canonical (meant d n))
            (t, (v, w))
            (vfs_open drivers (some (cstr n nrest)) flags mode buf (t, (v, w)))
  unfolding vfs_open
  vfs_open_lem keeps t v w d drest n nrest texts flags mode buf cwd textd textn room is well =
      let m = canonical (meant d n) in
      let textm = meant-IsText d n textd textn in
      let text = canonical-IsText (meant d n) textm in
      let size : length m < max_filename_len = omega (
        arith,
        length-meant d n,
        length-canonical (meant d n) textm (omega (arith, length-meant d n)),
      ) in
      let (p, resolved, holds) =
        resolve_lem d drest n nrest buf max_filename_len textd textn room (omega arith) in
      let (pad, eb) = bytes-cstr p m 0 max_filename_len holds size in
      let (found, len, best, chosen) = path_to_fs-Chosen v texts b'/' _ pad well text refl in
      let (out, eq, done) =
        open_on-none flags mode p (t, (v, w)) found keeps m text holds size is in
      (
        found,
        len,
        chosen,
        (
          out,
          ap
                (λ c. resolve_path c (some (cstr n nrest)) buf max_filename_len >>= (λ r.
                  path_to_fs v (bytes r 0 max_filename_len)
                  >>= (λ f. open_on drivers f flags mode r (t, (v, w)))))
                cwd
              ∙ ap
                  (λ o. o >>= (λ r.
                    path_to_fs v (bytes r 0 max_filename_len)
                    >>= (λ f. open_on drivers f flags mode r (t, (v, w)))))
                  resolved
              ∙ ap (λ l. path_to_fs v l >>= (λ f. open_on drivers f flags mode p (t, (v, w)))) eb
              ∙ ap (λ o. o >>= (λ f. open_on drivers f flags mode p (t, (v, w)))) best
              ∙ eq,
          done,
        ),
      )
