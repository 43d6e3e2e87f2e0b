-- ===== src/Vfs/Init.antt =====
-- `vfs_init` of fs/vfs.c makes the tables well formed, with every file free and no mount.
use punix.Base.{
  ℕ, zero, suc, ◌+◌, ◌%◌, ◌^◌, ◌<◌, ◌≤◌, ◌≡◌, refl, ap, ◌∙◌, arith, false, none, ℕ_discrete, update,
  update_self, update_ne,
}
use punix.Drivers.{zero_file}
use punix.FreeRing.Queue.{count, entry}
use punix.Vfs.{Vfs, Mount, file_bits, max_file_cnt, max_mounts, init_files, init_mounts, vfs_init}
use punix.Vfs.Inv.{IsVfs}

-- One turn of the loop over the files.
abbrev file_set : ℕ → Vfs → Vfs
file_set i v = record v {
  files = update v.files i (record zero_file { idx = i });
  ring = record v.ring { slots = update v.ring.slots i i };
}

-- The entries of `w` from `i` up to `last` are set, those below `i` are as in `v`.
abbrev FilesSet : ℕ → ℕ → Vfs → Vfs → Type 0
FilesSet i last v w =
    ((j : ℕ) → i ≤ j → j < last → ((w.files j).idx ≡ j) × (w.ring.slots j ≡ j))
    × ((j : ℕ) → j < i → (w.files j ≡ v.files j) × (w.ring.slots j ≡ v.ring.slots j))
    × (w.ring.head ≡ v.ring.head)
    × (w.ring.tail ≡ v.ring.tail)

FilesSet-next :
    (i last : ℕ) (v w : Vfs) → FilesSet (i + 1) last (file_set i v) w → FilesSet i last v w
FilesSet-next i last v w (done, before, head, tail) = (
  λ j low high. elim (ℕ_discrete j i) [
    | yes e ↦
        let (file, slot) = before i (omega arith) in
        rw e (
          ap (λ f. f.idx) (file ∙ update_self v.files i (record zero_file { idx = i })),
          slot ∙ update_self v.ring.slots i i,
        )
    | no ne ↦ done j (omega arith) high
  ],
  λ j h.
      let (file, slot) = before j (omega arith) in
      (
        file ∙ update_ne v.files i j (record zero_file { idx = i }) (omega arith),
        slot ∙ update_ne v.ring.slots i j i (omega arith),
      ),
  head,
  tail,
)

init_files_lem :
    (left i last : ℕ) (v : Vfs) → i + left ≡ last → FilesSet i last v (init_files left i v)
unfolding init_files
init_files_lem zero i last v e =
    (λ j low high. absurd (omega arith), λ j h. (refl, refl), refl, refl)
init_files_lem (suc left) i last v e =
    FilesSet-next i last v (init_files left (i + 1) (file_set i v))
      (init_files_lem left (i + 1) last (file_set i v) (omega arith))

abbrev no_mount : Mount → Mount
no_mount m = record { path = update m.path 0 0; fs = none; active = false }

init_mounts_lem :
    (left i last : ℕ) (v : Vfs)
    → i + left ≡ last
    → ((init_mounts left i v).ring ≡ v.ring)
      × ((init_mounts left i v).files ≡ v.files)
      × ((j : ℕ) → i ≤ j → j < last → ((init_mounts left i v).mounts j).active ≡ false)
      × ((j : ℕ) → j < i → (init_mounts left i v).mounts j ≡ v.mounts j)
unfolding init_mounts
init_mounts_lem zero i last v e = (refl, refl, λ j low high. absurd (omega arith), λ j h. refl)
init_mounts_lem (suc left) i last v e =
    let v1 = record v { mounts = update v.mounts i (no_mount (v.mounts i)) } in
    let (ring, files, off, before) = init_mounts_lem left (i + 1) last v1 (omega arith) in
    (
      ring,
      files,
      λ j low high. elim (ℕ_discrete j i) [
        | yes same ↦ rw same (
            ap (λ m. m.active)
              (before i (omega arith) ∙ update_self v.mounts i (no_mount (v.mounts i))))
        | no ne ↦ off j (omega arith) high
      ],
      λ j h. before j (omega arith) ∙ update_ne v.mounts i j (no_mount (v.mounts i)) (omega arith),
    )

-- A ring from 0 that holds each index at its own place.
all_free :
    (w : Vfs)
    → w.ring.head ≡ 0
    → w.ring.tail ≡ max_file_cnt
    → ((j : ℕ) → j < max_file_cnt → w.ring.slots j ≡ j)
    → ((j : ℕ) → j < max_file_cnt → (w.files j).idx ≡ j)
    → IsVfs w
      × (count w.ring ≡ max_file_cnt)
      × ((k : ℕ) → k < max_file_cnt → entry file_bits w.ring k ≡ k)
all_free w head tail slots files =
    let size : count w.ring ≡ max_file_cnt = omega arith in
    let in_order : (k : ℕ) → k < max_file_cnt → entry file_bits w.ring k ≡ k = λ k h.
      let place : (w.ring.head + k) % 2 ^ file_bits ≡ k = omega arith in
      ap w.ring.slots place ∙ slots k h in
    (
      record {
        ring = record { head_word = omega arith; tail_word = omega arith; fits = omega arith };
        in_range = λ k h. let low : k < max_file_cnt = omega arith in rw (in_order k low) low;
        indexed = files;
      },
      size,
      in_order,
    )

-- `vfs_init` makes the tables well formed, whatever was in them: all files are free, in the order of
-- their indices, and no mount is active.
pub vfs_init-IsVfs :
    (v : Vfs)
    → IsVfs (vfs_init v)
      × (count (vfs_init v).ring ≡ max_file_cnt)
      × ((k : ℕ) → k < max_file_cnt → entry file_bits (vfs_init v).ring k ≡ k)
      × ((i : ℕ) → i < max_mounts → ((vfs_init v).mounts i).active ≡ false)
unfolding vfs_init
vfs_init-IsVfs v =
    let v0 = record v { ring = record v.ring { head = 0; tail = max_file_cnt } } in
    let v1 = init_files max_file_cnt 0 v0 in
    let (done, before, head, tail) = init_files_lem max_file_cnt 0 max_file_cnt v0 (omega arith) in
    let (ring, files, off, kept) = init_mounts_lem max_mounts 0 max_mounts v1 (omega arith) in
    let (is, size, in_order) =
      all_free (vfs_init v) (ap (λ r. r.head) ring ∙ head) (ap (λ r. r.tail) ring ∙ tail)
        (λ j h. ap (λ r. r.slots j) ring ∙ (done j (omega arith) h).1)
        (λ j h. ap (λ fs. (fs j).idx) files ∙ (done j (omega arith) h).0) in
    (is, size, in_order, λ i h. off i (omega arith) h)
