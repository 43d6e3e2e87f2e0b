-- ===== src/Roots/Tests.antt =====
-- The theorem on the directory of the root, with one mount at `/d`.
use punix.Base.{update, ℕ, ◌==◌, refl, arith, List, [], ◌∷◌, some}
use punix.Buffer.{Buf, store}
use punix.Drivers.{Dirents, zero_file}
use punix.Drivers.Listing.{ListedOnce}
use punix.Kutils.Strings.Text.{cstr}
use punix.Vfs.{Vfs}
use punix.Vfs.Longest.{WellMounted}
use punix.Roots.{root_getdents}
use punix.Roots.Listed.{root_directory, root_getdents_lem}

abbrev path_d : List ℕ
path_d = b'/' ∷ b'd' ∷ []

abbrev zeros : Buf
zeros = λ i. 0

abbrev one_mount : Vfs
one_mount = record {
  ring = record { slots = λ i. i; head = 0; tail = 1024 };
  files = λ i. record zero_file { idx = i };
  mounts = λ i. record { path = store zeros 0 (cstr path_d []); fs = some 3; active = i == 0 };
}

one_mount-WellMounted : WellMounted one_mount.mounts (λ i. path_d)
unfolding update
one_mount-WellMounted i h on =
    ((omega arith, (omega arith, tt)), ((refl, (refl, tt)), refl), omega arith, omega arith)

abbrev no_entry : Dirents
no_entry = λ i. record { d_ino = 0; d_reclen = 0; d_type = 0; d_name = zeros }

root_getdents_lem_example :
    ListedOnce
      (λ f b. root_getdents one_mount f b 250)
      250
      (root_directory one_mount.mounts (λ i. path_d))
      zero_file
      no_entry
root_getdents_lem_example =
    root_getdents_lem one_mount (λ i. path_d) zero_file no_entry 250 one_mount-WellMounted
      (omega arith) refl
