-- ===== src/Vfs/Mounts.antt =====
-- `vfs_mount` of fs/vfs.c puts a file system into the first free slot, under the canonical path.
use punix.Base.{
  ℕ, zero, suc, ◌+◌, ◌<◌, ◌≤◌, ◌≡◌, refl, sym, ap, subst, ◌∙◌, arith, true, false, ◌⊎◌, inl, inr,
  Option, none, some, List, ◌∷◌, length, drop, leb, if◌then◌else◌, if-true, if-false, ◌>>=◌,
  Bool-cases, ℕ_discrete, update, update_self, update_ne,
}
use punix.Base.Int.{ℤ, pos, negsuc}
use punix.Buffer.{Buf, bytes, store, Holds, Reads-store, length-bytes}
use punix.Drivers.{max_filename_len}
use punix.Kutils.Strings.{strcpy}
use punix.Kutils.Strings.Text.{IsText, cstr}
use punix.Kutils.Strings.Copies.{strcpy_lem}
use punix.Paths.{normalize}
use punix.Paths.Names.{canonical}
use punix.Paths.Normal.{bytes-cstr}
use punix.Paths.Absolute.{normalize_lem}
use punix.Paths.Join.{copy_string_lem, Reads-left, Reads-next}
use punix.Paths.Canonical.{canonical-IsText}
use punix.Vfs.{Vfs, Mount, max_mounts, mount_loop, vfs_mount}
use punix.Vfs.Prefix.{IsMount}
use punix.Vfs.Longest.{WellMounted}

-- A text that is stored with its terminator can be read.
pub Holds-store : (p : Buf) (i : ℕ) (t rest : List ℕ) → Holds (store p i (cstr t rest)) i t
Holds-store p i t rest =
    let whole = Reads-store p i (cstr t rest) in
    (Reads-left _ i t (0 ∷ rest) whole, Reads-next _ i t 0 rest whole)

-- `k_strcpy` between two arrays of the same size.
pub strcpy-buffer :
    (dest src : Buf) (t : List ℕ)
    → IsText t
    → Holds src 0 t
    → length t < max_filename_len
    → (rest : List ℕ) × (strcpy (bytes dest 0 max_filename_len) (bytes src 0 max_filename_len)
        ≡ some (cstr t rest))
strcpy-buffer dest src t text holds short =
    let (rest, eq) = bytes-cstr src t 0 max_filename_len holds short in
    let old = bytes dest 0 max_filename_len in
    let size = length-bytes dest 0 max_filename_len in
    let fits : leb (length old) (length t) ≡ false = ground (arith, size) in
    (
      drop (suc (length t)) old,
      ap (strcpy old) eq
          ∙ strcpy_lem t rest old text
          ∙ ap (λ b. if b then none else some (cstr t (drop (suc (length t)) old))) fits,
    )

-- What the loop from slot `k` on leaves: no slot was free, or the first free one is taken.
abbrev pub MountDone : Vfs → ℕ → ℕ → List ℕ → Option (ℤ × Vfs) → Type 0
MountDone v k fs m r =
    ((r ≡ some (negsuc 0, v)) × ((j : ℕ) → k ≤ j → j < max_mounts → (v.mounts j).active ≡ true))
    ⊎ ((i : ℕ) × (mount : Mount) × (k ≤ i)
        × (i < max_mounts)
        × ((v.mounts i).active ≡ false)
        × ((j : ℕ) → k ≤ j → j < i → (v.mounts j).active ≡ true)
        × IsMount mount m
        × (mount.fs ≡ some fs)
        × (mount.active ≡ true)
        × (r ≡ some (pos 0, record v { mounts = update v.mounts i mount })))

mount_loop-used :
    (left k : ℕ) (v : Vfs) (p : Buf) (fs : ℕ)
    → (v.mounts k).active ≡ true
    → mount_loop (suc left) k v p fs ≡ mount_loop left (k + 1) v p fs
unfolding mount_loop
mount_loop-used left k v p fs used = if-true (v.mounts k).active _ _ used

mount_loop-free :
    (left k : ℕ) (v : Vfs) (p : Buf) (fs : ℕ) (out : List ℕ)
    → (v.mounts k).active ≡ false
    → strcpy (bytes (v.mounts k).path 0 max_filename_len) (bytes p 0 max_filename_len) ≡ some out
    → mount_loop (suc left) k v p fs
      ≡ some (
        pos 0,
        record v {
          mounts =
              update v.mounts k
                (record { path = store (v.mounts k).path 0 out; fs = some fs; active = true });
        },
      )
unfolding mount_loop
mount_loop-free left k v p fs out free copied =
    if-false (v.mounts k).active _ _ free
    ∙ ap
        (λ o. o >>= (λ new. some (
          pos 0,
          record v {
            mounts =
                update v.mounts k
                  (record { path = store (v.mounts k).path 0 new; fs = some fs; active = true });
          },
        )))
        copied

module _ (v : Vfs) (p : Buf) (fs : ℕ) (m : List ℕ) (text : IsText m) (holds : Holds p 0 m)
    (some_m : 0 < length m) (short : length m < max_filename_len) where
  later :
      (k : ℕ) (r : Option (ℤ × Vfs))
      → (v.mounts k).active ≡ true
      → MountDone v (k + 1) fs m r
      → MountDone v k fs m r
  later k r used (inl (e, all)) = inl (
    e,
    λ j low high. elim (ℕ_discrete j k) [
      | yes same ↦ ap (λ x. (v.mounts x).active) same ∙ used
      | no ne ↦ all j (omega arith) high
    ],
  )
  later k r used (inr (i, mount, low_i, high_i, free, before, is, efs, on, e)) = inr (
    i,
    mount,
    omega arith,
    high_i,
    free,
    λ j low high. elim (ℕ_discrete j k) [
      | yes same ↦ ap (λ x. (v.mounts x).active) same ∙ used
      | no ne ↦ before j (omega arith) high
    ],
    is,
    efs,
    on,
    e,
  )

  mount_loop_lem :
      (left k : ℕ) → k + left ≡ max_mounts → MountDone v k fs m (mount_loop left k v p fs)
  unfolding mount_loop
  mount_loop_lem zero k e = inl (refl, λ j low high. absurd (omega arith))
  mount_loop_lem (suc left) k e = elim (Bool-cases (v.mounts k).active) [
    | inl used ↦ later k _ used (
        subst (MountDone v (k + 1) fs m) (sym (mount_loop-used left k v p fs used))
          (mount_loop_lem left (k + 1) (omega arith)))
    | inr free ↦
        let (rest, copied) = strcpy-buffer (v.mounts k).path p m text holds short in
        inr (
          k,
          record { path = store (v.mounts k).path 0 (cstr m rest); fs = some fs; active = true },
          omega arith,
          omega arith,
          free,
          λ j low high. absurd (omega arith),
          (text, Holds-store (v.mounts k).path 0 m rest, some_m, short),
          refl,
          refl,
          mount_loop-free left k v p fs (cstr m rest) free copied,
        )
  ]

-- `vfs_mount` takes the first free slot for the file system under the canonical form of the path, or
-- fails and changes nothing if there is no free slot. The path has at most 61 characters.
pub vfs_mount_lem :
    (v : Vfs) (buf : Buf) (t rest : List ℕ) (fs : ℕ)
    → IsText t
    → length t + 2 < max_filename_len
    → MountDone v 0 fs (canonical t) (vfs_mount v buf (some (cstr t rest)) (some fs))
unfolding vfs_mount
vfs_mount_lem v buf t rest fs text short =
    let (copied, ec, holds, below) =
      copy_string_lem buf max_filename_len 0 t rest text (omega arith) in
    let (norm, en, reads, small, above) =
      normalize_lem copied max_filename_len t text holds short (omega arith) in
    subst (MountDone v 0 fs (canonical t))
      (sym (
        ap
          (λ o. o >>= (λ c. normalize c max_filename_len >>= (λ n. mount_loop max_mounts 0 v n fs)))
          ec
        ∙ ap (λ o. o >>= (λ n. mount_loop max_mounts 0 v n fs)) en))
      (mount_loop_lem v norm fs (canonical t) (canonical-IsText t text) reads (omega arith)
        (omega (arith, small)) max_mounts 0 (omega arith))

-- A table of mounts in which every active mount holds a text stays one.
pub WellMounted-update :
    (mounts : ℕ → Mount) (texts : ℕ → List ℕ) (i : ℕ) (mount : Mount) (m : List ℕ)
    → WellMounted mounts texts
    → IsMount mount m
    → WellMounted (update mounts i mount) (update texts i m)
WellMounted-update mounts texts i mount m well is j h on = elim (ℕ_discrete j i) [
  | yes e ↦
      subst (λ x. IsMount (update mounts i mount x) (update texts i m x)) (sym e)
        (rw (update_self mounts i mount, update_self texts i m) is)
  | no ne ↦
      let old = update_ne mounts i j mount ne in
      rw (old, update_ne texts i j m ne) (well j h (rw old at on))
]
