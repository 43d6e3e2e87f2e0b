-- ===== src/Drivers/Listing.antt =====
-- What the `getdents` functions of the file systems have in common.
use punix.Base.{
  ℕ, ◌+◌, ◌*◌, ◌/◌, ◌<◌, ◌≤◌, ◌≡◌, sym, ap, ◌∙◌, arith, true, false, Option, some, List, [], ◌∷◌,
  All, length, ltb, if-true, if-false, ◌>>=◌, bind-cong, bind_assoc, min,
}
use punix.Base.Int.{ℤ, pos}
use punix.Kutils.Strings.Text.{IsText}
use punix.Drivers.{
  OpenFile, Dirents, add_entry, list_directory, finish_list, dot, dot_dot, dirent_size, dt_dir,
}
use punix.Drivers.Entries.{Entry, add_all, Added, add_all_lem}

-- `.` and `..`, and then the entries.
abbrev pub dotted : ℕ → ℕ → List (Entry × List ℕ) → List (Entry × List ℕ)
dotted self up es =
    (record { number = self; kind = dt_dir; label = b'.' ∷ [] }, [])
    ∷ (record { number = up; kind = dt_dir; label = b'.' ∷ b'.' ∷ [] }, [])
    ∷ es

-- A call that has listed the first entries in its buffer, and the next call.
abbrev pub ListedOnce :
    (OpenFile → Dirents → Option (ℤ × (OpenFile × Dirents)))
    → ℕ
    → List (Entry × List ℕ)
    → OpenFile
    → Dirents
    → Type 0
ListedOnce call count es file buf =
    (out : Dirents × ℕ) × (call file buf ≡ some (finish_list file out))
    × Added (count / dirent_size) es (buf, 0) out
    × (out.1 * dirent_size ≤ count)
    × ((next : Dirents)
        → call (finish_list file out).1.0 next ≡ some (pos 0, ((finish_list file out).1.0, next)))

module _ (self up : ℕ) (fill : ℕ → Dirents × ℕ → Option (Dirents × ℕ)) (es : List (Entry × List ℕ))
    (fills : (max idx : ℕ) (buf : Dirents) → fill max (buf, idx) ≡ add_all max es (buf, idx)) where
  chain :
      (file : OpenFile) (buf : Dirents) (max : ℕ)
      → add_entry buf max 0 self dt_dir (some dot) >>= (λ first.
        add_entry first.1.0 max first.1.1 up dt_dir (some dot_dot)
        >>= (λ second. fill max second.1 >>= (λ listed. some (finish_list file listed))))
        ≡ add_all max (dotted self up es) (buf, 0) >>= (λ l. some (finish_list file l))
  chain file buf max =
      let end : Dirents × ℕ → Option (ℤ × (OpenFile × Dirents)) = λ l. some (finish_list file l) in
      bind-cong (add_entry buf max 0 self dt_dir (some dot)) _ _ (λ first.
        bind-cong (add_entry first.1.0 max first.1.1 up dt_dir (some dot_dot)) _ _
          (λ second. ap (λ o. o >>= end) (fills max second.1.1 second.1.0))
        ∙ sym (
            bind_assoc (add_entry first.1.0 max first.1.1 up dt_dir (some dot_dot))
              (λ second. add_all max es second.1) end))
      ∙ sym (
          bind_assoc (add_entry buf max 0 self dt_dir (some dot))
            (λ first.
              add_entry first.1.0 max first.1.1 up dt_dir (some dot_dot)
              >>= (λ second. add_all max es second.1))
            end)

  read_again :
      (file : OpenFile) (buf : Dirents) (count : ℕ)
      → dirent_size ≤ count
      → 0 < file.offset
      → list_directory self up fill file buf count ≡ some (pos 0, (file, buf))
  unfolding list_directory
  read_again file buf count room read =
      let small : ltb count dirent_size ≡ false = ground arith in
      let again : ltb 0 file.offset ≡ true = ground arith in
      if-false (ltb count dirent_size) _ _ small ∙ if-true (ltb 0 file.offset) _ _ again

  pub list_directory_lem :
      (file : OpenFile) (buf : Dirents) (count : ℕ)
      → All (λ e. IsText e.0.label) es
      → dirent_size ≤ count
      → file.offset ≡ 0
      → ListedOnce (λ f b. list_directory self up fill f b count) count (dotted self up es) file buf
  unfolding list_directory
  list_directory_lem file buf count texts room unread =
      let max = count / dirent_size in
      let small : ltb count dirent_size ≡ false = ground arith in
      let fresh : ltb 0 file.offset ≡ false = ground arith in
      let (out, eq, added) =
        add_all_lem max (dotted self up es) buf 0
          ((omega arith, tt), ((omega arith, (omega arith, tt)), texts)) (omega arith) in
      let size : out.1 ≡ min (0 + length (dotted self up es)) max = added.1 in
      (
        out,
        if-false (ltb count dirent_size) _ _ small
            ∙ if-false (ltb 0 file.offset) _ _ fresh
            ∙ chain file buf max
            ∙ ap (λ o. o >>= (λ l. some (finish_list file l))) eq,
        added,
        omega (arith, size),
        λ next. read_again (finish_list file out).1.0 next count room (omega (arith, size)),
      )
