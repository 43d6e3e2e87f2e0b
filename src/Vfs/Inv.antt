-- ===== src/Vfs/Inv.antt =====
-- The table of open files: the ring of free files is well formed, and every file knows its index.
use punix.Base.{
  ℕ, suc, ◌*◌, ◌^◌, ◌<◌, ◌≡◌, ◌≢◌, refl, subst, ap, ◌∙◌, arith, none, some, ◌>>=◌, ℕ_discrete,
  update, update_self, update_ne,
}
use punix.Base.Int.{negsuc}
use punix.FreeRing.{w32}
use punix.FreeRing.Queue.{IsRing, count, entry, take_lem, give_lem}
use punix.Vfs.{Vfs, file_bits, max_file_cnt, alloc_file, free_file}

pub record IsVfs (v : Vfs) : Type 0 where
  pub ring : IsRing file_bits v.ring
  pub in_range : (k : ℕ) → k < count v.ring → entry file_bits v.ring k < max_file_cnt
  pub indexed : (f : ℕ) → f < max_file_cnt → (v.files f).idx ≡ f

-- The number of masked bits divides the range of the counters.
divides : w32 ≡ 2 ^ 22 * 2 ^ file_bits
divides = omega arith

-- The first free file, and the ring without it.
abbrev pub Taken : Vfs → ℕ → Vfs → Type 0
Taken v f v1 =
    IsVfs v1
    × (f ≡ entry file_bits v.ring 0)
    × (f < max_file_cnt)
    × (suc (count v1.ring) ≡ count v.ring)
    × ((k : ℕ) → entry file_bits v1.ring k ≡ entry file_bits v.ring (suc k))
    × (v1.files ≡ v.files)
    × (v1.mounts ≡ v.mounts)

-- The tables after a file is given back: it is the last of the free ones, and has no descriptor.
abbrev pub Given : Vfs → ℕ → Vfs → Type 0
Given v f v1 =
    IsVfs v1
    × (count v1.ring ≡ suc (count v.ring))
    × (entry file_bits v1.ring (count v.ring) ≡ f)
    × ((k : ℕ) → k < count v.ring → entry file_bits v1.ring k ≡ entry file_bits v.ring k)
    × ((g : ℕ) → g ≢ f → v1.files g ≡ v.files g)
    × (v1.files f ≡ record (v.files f) { fd = negsuc 0 })
    × (v1.mounts ≡ v.mounts)

-- The first free file is now the last one: it has no descriptor, and may have other contents. All
-- other files are as before.
abbrev pub Rotated : Vfs → Vfs → Type 0
Rotated v v' =
    (0 < count v.ring)
    × ((k : ℕ) → suc k < count v.ring → entry file_bits v'.ring k ≡ entry file_bits v.ring (suc k))
    × ((k : ℕ) → suc k ≡ count v.ring → entry file_bits v'.ring k ≡ entry file_bits v.ring 0)
    × ((g : ℕ) → g ≢ entry file_bits v.ring 0 → v'.files g ≡ v.files g)
    × ((v'.files (entry file_bits v.ring 0)).fd ≡ negsuc 0)

pub alloc_file-none : (v : Vfs) → IsVfs v → count v.ring ≡ 0 → alloc_file v ≡ none
unfolding alloc_file
alloc_file-none v h e =
    ap (λ o. o >>= (λ (file, ring). some (file, record v { ring = ring })))
      ((take_lem file_bits (2 ^ 22) divides (omega arith) v.ring h.ring).0 e)

pub alloc_file-some :
    (v : Vfs)
    → IsVfs v
    → 0 < count v.ring
    → (f : ℕ) × (v1 : Vfs) × (alloc_file v ≡ some (f, v1)) × Taken v f v1
unfolding alloc_file
alloc_file-some v h some_free =
    let (r, eq, is, less, shift) =
      (take_lem file_bits (2 ^ 22) divides (omega arith) v.ring h.ring).1 some_free in
    (
      entry file_bits v.ring 0,
      record v { ring = r },
      ap (λ o. o >>= (λ (file, ring). some (file, record v { ring = ring }))) eq,
      (
        record {
          ring = is;
          in_range = λ k low. rw (shift k) (h.in_range (suc k) (omega arith));
          indexed = h.indexed;
        },
        refl,
        h.in_range 0 some_free,
        less,
        shift,
        refl,
        refl,
      ),
    )

-- A file that is not free can always be given back.
pub free_file_lem :
    (v : Vfs) (f : ℕ)
    → IsVfs v
    → f < max_file_cnt
    → count v.ring < max_file_cnt
    → (v1 : Vfs) × (free_file v f ≡ some v1) × Given v f v1
unfolding free_file
free_file_lem v f h low room =
    let own = h.indexed f low in
    let (r, eq, is, more, last, same) =
      (give_lem file_bits (2 ^ 22) divides (omega arith) v.ring h.ring (v.files f).idx).1
        (omega arith) in
    let closed = record (v.files f) { fd = negsuc 0 } in
    (
      record v { ring = r; files = update v.files f closed },
      ap
          (λ o. o >>= (λ ring. some (record v {
            ring = ring;
            files = update v.files f (record (v.files f) { fd = negsuc 0 });
          })))
          eq,
      (
        record {
          ring = is;
          in_range = λ k below. elim (ℕ_discrete k (count v.ring)) [
            | yes e ↦ rw (e, last, own) low
            | no ne ↦
                let before : k < count v.ring = omega arith in
                rw (same k before) (h.in_range k before)
          ];
          indexed = λ g high. elim (ℕ_discrete g f) [
            | yes e ↦ rw (e, update_self v.files f closed) own
            | no ne ↦ rw (update_ne v.files f g closed ne) (h.indexed g high)
          ];
        },
        more,
        last ∙ own,
        same,
        λ g ne. update_ne v.files f g closed ne,
        update_self v.files f closed,
        refl,
      ),
    )

-- The first free file was taken, no other file has changed, and it is given back.
pub give-Rotated :
    (v v1 v2 : Vfs) (f : ℕ)
    → f ≡ entry file_bits v.ring 0
    → suc (count v1.ring) ≡ count v.ring
    → ((k : ℕ) → entry file_bits v1.ring k ≡ entry file_bits v.ring (suc k))
    → ((g : ℕ) → g ≢ f → v1.files g ≡ v.files g)
    → Given v1 f v2
    → Rotated v v2
give-Rotated v v1 v2 f first less shift others (is, more, last, same, kept, closed, mounts) = (
  omega (arith, less),
  λ k h. same k (omega (arith, h, less)) ∙ shift k,
  λ k e.
      let here : k ≡ count v1.ring = omega (arith, e, less) in
      ap (entry file_bits v2.ring) here ∙ last ∙ first,
  λ g ne. let out : g ≢ f = λ e. ne (e ∙ first) in kept g out ∙ others g out,
  subst (λ x. (v2.files x).fd ≡ negsuc 0) first (ap (λ x. x.fd) closed),
)
