-- ===== src/Devices/Listed.antt =====
-- `dev_getdents` of fs/dev_fs.c lists the devices behind `.` and `..`.
use punix.Base.{
  ℕ, zero, suc, ◌+◌, ◌<◌, ◌≤◌, ◌≡◌, refl, sym, ap, subst, ◌∙◌, arith, true, false, some, List, [],
  ◌∷◌, All, length, drop, leb, if◌then◌else◌, if-true, if-false, ◌>>=◌, bind-cong, dec_lt,
  Bool-cases, inl, inr,
}
use punix.Buffer.{Buf, bytes, Holds}
use punix.Drivers.{OpenFile, Dirents, add_entry, dirent_size, dt_chr}
use punix.Drivers.Entries.{Entry, add_all, add_all-full}
use punix.Drivers.Listing.{dotted, ListedOnce, list_directory_lem}
use punix.Kutils.Strings.Text.{IsText, cstr}
use punix.Paths.Normal.{bytes-cstr}
use punix.Devices.{Dev, Devices, max_devices, name_size, list_loop, dev_getdents}

-- The name of a device in use.
abbrev pub IsNamed : Dev → List ℕ → Type 0
IsNamed dev t = IsText t × Holds dev.name 0 t × (length t < name_size)

abbrev pub WellNamed : (ℕ → Dev) → (ℕ → List ℕ) → Type 0
WellNamed devices names =
    (i : ℕ) → i < max_devices → (devices i).active ≡ true → IsNamed (devices i) (names i)

-- A device as an entry of the directory, with what stands behind its name.
abbrev pub dev_entry : (ℕ → Dev) → (ℕ → List ℕ) → ℕ → Entry × List ℕ
dev_entry devices names i = (
  record { number = 100 + i; kind = dt_chr; label = names i },
  drop (suc (length (names i))) (bytes (devices i).name 0 name_size),
)

-- The active devices from `i` on.
abbrev pub entries_from : ℕ → ℕ → (ℕ → Dev) → (ℕ → List ℕ) → List (Entry × List ℕ)
entries_from zero i devices names = []
entries_from (suc left) i devices names =
    let rest = entries_from left (i + 1) devices names in
    if (devices i).active then dev_entry devices names i ∷ rest else rest

-- The directory of the devices.
abbrev pub directory : (ℕ → Dev) → (ℕ → List ℕ) → List (Entry × List ℕ)
directory devices names = dotted 1 2 (entries_from max_devices 0 devices names)

pub drop-cstr : (t rest : List ℕ) → drop (suc (length t)) (cstr t rest) ≡ rest
drop-cstr [] rest = refl
drop-cstr (c ∷ t) rest = drop-cstr t rest

name-cstr :
    (name : Buf) (t : List ℕ)
    → Holds name 0 t
    → length t < name_size
    → bytes name 0 name_size ≡ cstr t (drop (suc (length t)) (bytes name 0 name_size))
name-cstr name t holds short =
    let (rest, eq) = bytes-cstr name t 0 name_size holds short in
    eq ∙ ap (cstr t) (sym (ap (drop (suc (length t))) eq ∙ drop-cstr t rest))

module _ (devices : ℕ → Dev) (names : ℕ → List ℕ) (well : WellNamed devices names) where
  entries_from-IsText :
      (left i : ℕ)
      → i + left ≡ max_devices
      → All (λ e. IsText e.0.label) (entries_from left i devices names)
  entries_from-IsText zero i e = tt
  entries_from-IsText (suc left) i e = elim (Bool-cases (devices i).active) [
    | inl on ↦
        subst (All (λ e. IsText e.0.label)) (sym (if-true (devices i).active _ _ on))
          ((well i (omega arith) on).0, entries_from-IsText left (i + 1) (omega arith))
    | inr off ↦
        subst (All (λ e. IsText e.0.label)) (sym (if-false (devices i).active _ _ off))
          (entries_from-IsText left (i + 1) (omega arith))
  ]

  list_loop-full :
      (left i max : ℕ) (buf : Dirents) (idx : ℕ)
      → max ≤ idx
      → list_loop left i devices max (buf, idx) ≡ some (buf, idx)
  unfolding list_loop
  list_loop-full zero i max buf idx h = refl
  list_loop-full (suc left) i max buf idx h =
      let full : leb max idx ≡ true = ground arith in if-true (leb max idx) _ _ full

  list_loop-on :
      (left i max : ℕ) (buf : Dirents) (idx : ℕ)
      → idx < max
      → (devices i).active ≡ true
      → list_loop (suc left) i devices max (buf, idx)
        ≡ add_entry buf max idx (100 + i) dt_chr (some (bytes (devices i).name 0 name_size))
          >>= (λ added. list_loop left (i + 1) devices max added.1)
  unfolding list_loop
  list_loop-on left i max buf idx h on =
      let room : leb max idx ≡ false = ground arith in
      if-false (leb max idx) _ _ room ∙ if-true (devices i).active _ _ on

  list_loop-off :
      (left i max : ℕ) (buf : Dirents) (idx : ℕ)
      → idx < max
      → (devices i).active ≡ false
      → list_loop (suc left) i devices max (buf, idx)
        ≡ list_loop left (i + 1) devices max (buf, idx)
  unfolding list_loop
  list_loop-off left i max buf idx h off =
      let room : leb max idx ≡ false = ground arith in
      if-false (leb max idx) _ _ room ∙ if-false (devices i).active _ _ off

  list_loop_lem :
      (left i max : ℕ) (buf : Dirents) (idx : ℕ)
      → i + left ≡ max_devices
      → list_loop left i devices max (buf, idx)
        ≡ add_all max (entries_from left i devices names) (buf, idx)
  unfolding list_loop
  list_loop_lem zero i max buf idx e = refl
  list_loop_lem (suc left) i max buf idx e = elim (dec_lt idx max) [
    | no full ↦
        list_loop-full (suc left) i max buf idx (omega arith)
        ∙ sym (add_all-full max (entries_from (suc left) i devices names) buf idx (omega arith))
    | yes room ↦ elim (Bool-cases (devices i).active) [
      | inr off ↦
          list_loop-off left i max buf idx room off
          ∙ list_loop_lem left (i + 1) max buf idx (omega arith)
          ∙ ap (λ es. add_all max es (buf, idx)) (sym (if-false (devices i).active _ _ off))
      | inl on ↦
          let (text, holds, short) = well i (omega arith) on in
          list_loop-on left i max buf idx room on
          ∙ ap
              (λ l.
                add_entry buf max idx (100 + i) dt_chr (some l)
                >>= (λ added. list_loop left (i + 1) devices max added.1))
              (name-cstr (devices i).name (names i) holds short)
          ∙ bind-cong (add_entry buf max idx (100 + i) dt_chr (some _)) _ _
              (λ added. list_loop_lem left (i + 1) max added.1.0 added.1.1 (omega arith))
          ∙ ap (λ es. add_all max es (buf, idx)) (sym (if-true (devices i).active _ _ on))
    ]
  ]

-- `dev_getdents` on a directory that is not read yet fills the buffer with the first entries of the
-- directory, `.`, `..` and the active devices in the order of the table, as many as fit into `count`
-- bytes; it returns their size, which is at most `count`, leaves the rest of the buffer alone, and
-- the next call returns 0. There is room for one entry, and active devices have names that fit.
pub dev_getdents_lem :
    (d : Devices) (names : ℕ → List ℕ) (file : OpenFile) (buf : Dirents) (count : ℕ)
    → WellNamed d.devices names
    → dirent_size ≤ count
    → file.offset ≡ 0
    → ListedOnce (λ f b. dev_getdents d f b count) count (directory d.devices names) file buf
unfolding dev_getdents
dev_getdents_lem d names file buf count well room unread =
    list_directory_lem 1 2 (λ max. list_loop max_devices 0 d.devices max)
      (entries_from max_devices 0 d.devices names)
      (λ max idx b. list_loop_lem d.devices names well max_devices 0 max b idx (omega arith)) file
      buf count (entries_from-IsText d.devices names well max_devices 0 (omega arith)) room unread
