-- ===== src/Roots/Listed.antt =====
-- The root lists the mounts right below it.
use punix.Base.{
  ℕ, zero, suc, ◌+◌, ◌-◌, ◌<◌, ◌≤◌, ◌≡◌, refl, sym, ap, subst, ◌∙◌, arith, Bool, true, false, ◌&&◌,
  Option, some, List, [], ◌∷◌, ◌++◌, All, length, drop, leb, if◌then◌else◌, if-true, if-false,
  ◌>>=◌, bind-cong, bind_assoc, both_branches, ap₂, dec_lt, ne→==, Bool-cases, inl, inr,
}
use punix.Devices.Listed.{drop-cstr}
use punix.Drivers.{OpenFile, Dirents, add_entry, dirent_size, dt_dir, max_filename_len}
use punix.Drivers.Entries.{Entry, add_all, add_all-full}
use punix.Drivers.Listing.{dotted, ListedOnce, list_directory_lem}
use punix.Kutils.Strings.Text.{IsText, cstr}
use punix.Kutils.Strings.Find.{first_index, strchr_lem}
use punix.Paths.{is_slash}
use punix.Paths.Normal.{bytes-cstr}
use punix.Vfs.{Vfs, Mount, max_mounts}
use punix.Vfs.Prefix.{IsMount}
use punix.Vfs.Longest.{WellMounted}
use punix.Roots.{absent, mount_name, list_named, list_mount, mounts_loop, root_getdents}

-- A path right below the root: a slash, and a name with no slash.
abbrev pub child : List ℕ → Bool
child [] = false
child (c ∷ []) = false
child (c ∷ x ∷ s) = is_slash c && absent (first_index ((x ∷ s) ++ (0 ∷ [])) b'/')

abbrev pub tail : List ℕ → List ℕ
tail [] = []
tail (c ∷ s) = s

-- The name of a mount in its array, and what stands behind it.
abbrev behind : Mount → List ℕ → List ℕ
behind m t = drop (suc (length (tail t))) (mount_name m)

name-cstr :
    (m : Mount) (c x : ℕ) (s : List ℕ)
    → IsMount m (c ∷ x ∷ s)
    → mount_name m ≡ cstr (x ∷ s) (behind m (c ∷ x ∷ s))
name-cstr m c x s (text, holds, some_m, short) =
    let e : 0 + suc (suc (length s)) ≡ 1 + suc (length s) = omega arith in
    let (rest, eq) =
      bytes-cstr m.path (x ∷ s) 1 (max_filename_len - 1) (holds.0.1, ap m.path (sym e) ∙ holds.1)
        (omega arith) in
    eq ∙ ap (cstr (x ∷ s)) (sym (ap (drop (suc (length (x ∷ s)))) eq ∙ drop-cstr (x ∷ s) rest))

-- What a call of `list_named` is, by the path of the mount.
abbrev by_path : List ℕ → List ℕ → ℕ → Dirents → ℕ → Option (Dirents × ℕ)
by_path t rest max buf idx =
    if child t
    then add_entry buf max idx 0 dt_dir (some (cstr (tail t) rest)) >>= (λ added. some added.1)
    else some (buf, idx)

named_alone :
    (c : ℕ) (name : List ℕ) (max : ℕ) (buf : Dirents) (idx : ℕ)
    → list_named c 0 name max buf idx ≡ some (buf, idx)
named_alone c name max buf idx = elim (Bool-cases (is_slash c)) [
  | inl q ↦ rw q refl
  | inr q ↦ rw q refl
]

named :
    (c x : ℕ) (s rest : List ℕ) (max : ℕ) (buf : Dirents) (idx : ℕ)
    → IsText (x ∷ s)
    → list_named c x (cstr (x ∷ s) rest) max buf idx ≡ by_path (c ∷ x ∷ s) rest max buf idx
named c x s rest max buf idx text =
    let some_x = ne→== x 0 (omega (arith, text.0)) in
    let found = (strchr_lem (x ∷ s) rest b'/' text).0 in
    elim (Bool-cases (is_slash c)) [
      | inr q ↦ rw q refl
      | inl q ↦ elim (Bool-cases (absent (first_index ((x ∷ s) ++ (0 ∷ [])) b'/'))) [
        | inl a ↦ rw (q, some_x) (rw found (rw a refl))
        | inr a ↦ rw (q, some_x) (rw found (rw a refl))
      ]
    ]

list_mount_lem :
    (m : Mount) (max : ℕ) (buf : Dirents) (idx : ℕ) (t : List ℕ)
    → IsMount m t
    → list_mount m max buf idx ≡ by_path t (behind m t) max buf idx
list_mount_lem m max buf idx [] (text, holds, some_m, short) = absurd (omega arith)
list_mount_lem m max buf idx (c ∷ []) (text, holds, some_m, short) =
    ap (λ x. list_named (m.path 0) x (mount_name m) max buf idx) holds.1
    ∙ named_alone (m.path 0) (mount_name m) max buf idx
list_mount_lem m max buf idx (c ∷ x ∷ s) is =
    ap (λ y. list_named y (m.path 1) (mount_name m) max buf idx) is.1.0.0
    ∙ ap (λ y. list_named c y (mount_name m) max buf idx) is.1.0.1.0
    ∙ ap (λ l. list_named c x l max buf idx) (name-cstr m c x s is)
    ∙ named c x s (behind m (c ∷ x ∷ s)) max buf idx is.0.1

-- The directory of the mounts from `i` on, and of the root.
abbrev pub roots_from : ℕ → ℕ → (ℕ → Mount) → (ℕ → List ℕ) → List (Entry × List ℕ)
roots_from zero i mounts texts = []
roots_from (suc left) i mounts texts =
    let rest = roots_from left (i + 1) mounts texts in
    if (mounts i).active && child (texts i)
    then (record { number = 0; kind = dt_dir; label = tail (texts i) }, behind (mounts i) (texts i))
      ∷ rest
    else rest

abbrev pub root_directory : (ℕ → Mount) → (ℕ → List ℕ) → List (Entry × List ℕ)
root_directory mounts texts = dotted 1 1 (roots_from max_mounts 0 mounts texts)

IsText-tail : (t : List ℕ) → IsText t → IsText (tail t)
IsText-tail [] text = tt
IsText-tail (c ∷ s) text = text.1

module _ (mounts : ℕ → Mount) (texts : ℕ → List ℕ) (well : WellMounted mounts texts) where
  roots_from-IsText :
      (left i : ℕ)
      → i + left ≡ max_mounts
      → All (λ e. IsText e.0.label) (roots_from left i mounts texts)
  roots_from-IsText zero i e = tt
  roots_from-IsText (suc left) i e = elim (Bool-cases (mounts i).active) [
    | inl on ↦
        both_branches (All (λ e. IsText e.0.label)) ((mounts i).active && child (texts i))
          (
            IsText-tail (texts i) (well i (omega arith) on).0,
            roots_from-IsText left (i + 1) (omega arith),
          )
          (roots_from-IsText left (i + 1) (omega arith))
    | inr off ↦
        subst (All (λ e. IsText e.0.label))
          (sym (
            if-false ((mounts i).active && child (texts i)) _ _
              (ap (λ b. b && child (texts i)) off)))
          (roots_from-IsText left (i + 1) (omega arith))
  ]

  mounts_loop-full :
      (left i max : ℕ) (buf : Dirents) (idx : ℕ)
      → max ≤ idx
      → mounts_loop left i mounts max (buf, idx) ≡ some (buf, idx)
  unfolding mounts_loop
  mounts_loop-full zero i max buf idx h = refl
  mounts_loop-full (suc left) i max buf idx h =
      let full : leb max idx ≡ true = ground arith in if-true (leb max idx) _ _ full

  mounts_loop-on :
      (left i max : ℕ) (buf : Dirents) (idx : ℕ)
      → idx < max
      → (mounts i).active ≡ true
      → mounts_loop (suc left) i mounts max (buf, idx)
        ≡ list_mount (mounts i) max buf idx >>= (λ s. mounts_loop left (i + 1) mounts max s)
  unfolding mounts_loop
  mounts_loop-on left i max buf idx h on =
      let room : leb max idx ≡ false = ground arith in
      if-false (leb max idx) _ _ room ∙ if-true (mounts i).active _ _ on

  mounts_loop-off :
      (left i max : ℕ) (buf : Dirents) (idx : ℕ)
      → idx < max
      → (mounts i).active ≡ false
      → mounts_loop (suc left) i mounts max (buf, idx)
        ≡ mounts_loop left (i + 1) mounts max (buf, idx)
  unfolding mounts_loop
  mounts_loop-off left i max buf idx h off =
      let room : leb max idx ≡ false = ground arith in
      if-false (leb max idx) _ _ room ∙ if-false (mounts i).active _ _ off

  mounts_loop_lem :
      (left i max : ℕ) (buf : Dirents) (idx : ℕ)
      → i + left ≡ max_mounts
      → mounts_loop left i mounts max (buf, idx)
        ≡ add_all max (roots_from left i mounts texts) (buf, idx)
  unfolding mounts_loop
  mounts_loop_lem zero i max buf idx e = refl
  mounts_loop_lem (suc left) i max buf idx e =
      let listed = (mounts i).active && child (texts i) in
      let rest : Dirents × ℕ → Option (Dirents × ℕ) = λ s. mounts_loop left (i + 1) mounts max s in
      elim (dec_lt idx max) [
        | no full ↦
            mounts_loop-full (suc left) i max buf idx (omega arith)
            ∙ sym (add_all-full max (roots_from (suc left) i mounts texts) buf idx (omega arith))
        | yes room ↦ elim (Bool-cases (mounts i).active) [
          | inr off ↦
              mounts_loop-off left i max buf idx room off
              ∙ mounts_loop_lem left (i + 1) max buf idx (omega arith)
              ∙ ap (λ es. add_all max es (buf, idx))
                  (sym (if-false listed _ _ (ap (λ b. b && child (texts i)) off)))
          | inl on ↦
              let to_path =
                mounts_loop-on left i max buf idx room on
                ∙ ap (λ o. o >>= rest)
                    (list_mount_lem (mounts i) max buf idx (texts i) (well i (omega arith) on)) in
              elim (Bool-cases (child (texts i))) [
                | inl is_child ↦
                    to_path
                    ∙ ap (λ o. o >>= rest) (if-true (child (texts i)) _ _ is_child)
                    ∙ bind_assoc (add_entry buf max idx 0 dt_dir (some _)) (λ added. some added.1)
                        rest
                    ∙ bind-cong (add_entry buf max idx 0 dt_dir (some _)) _ _ (λ added.
                      mounts_loop_lem left (i + 1) max added.1.0 added.1.1 (omega arith))
                    ∙ ap (λ es. add_all max es (buf, idx))
                        (sym (if-true listed _ _ (ap₂ (λ a b. a && b) on is_child)))
                | inr other ↦
                    to_path
                    ∙ ap (λ o. o >>= rest) (if-false (child (texts i)) _ _ other)
                    ∙ mounts_loop_lem left (i + 1) max buf idx (omega arith)
                    ∙ ap (λ es. add_all max es (buf, idx))
                        (sym (if-false listed _ _ (ap₂ (λ a b. a && b) on other)))
              ]
        ]
      ]

-- `root_getdents` on a directory that is not read yet fills the buffer with the first entries of `.`,
-- `..` and the active mounts right below the root in the order of the table, as many as fit into
-- `count` bytes; it returns their size, which is at most `count`, leaves the rest of the buffer alone,
-- and the next call returns 0. There is room for one entry, and every active mount holds a text.
pub root_getdents_lem :
    (v : Vfs) (texts : ℕ → List ℕ) (file : OpenFile) (buf : Dirents) (count : ℕ)
    → WellMounted v.mounts texts
    → dirent_size ≤ count
    → file.offset ≡ 0
    → ListedOnce (λ f b. root_getdents v f b count) count (root_directory v.mounts texts) file buf
unfolding root_getdents
root_getdents_lem v texts file buf count well room unread =
    list_directory_lem 1 1 (λ max state. mounts_loop max_mounts 0 v.mounts max state)
      (roots_from max_mounts 0 v.mounts texts)
      (λ max idx b. mounts_loop_lem v.mounts texts well max_mounts 0 max b idx (omega arith)) file
      buf count (roots_from-IsText v.mounts texts well max_mounts 0 (omega arith)) room unread
