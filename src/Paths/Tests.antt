-- ===== src/Paths/Tests.antt =====
-- The theorems on paths, at a path that goes up, and in a directory of the user.
use punix.Base.{update, ℕ, ◌≡◌, refl, arith, List, [], ◌∷◌, some, Bool}
use punix.Buffer.{Buf, store, Holds, AgreeFrom}
use punix.Kutils.Strings.Text.{IsText, cstr}
use punix.Paths.{resolve_path}
use punix.Paths.Absolute.{Normalized, normalize_lem}
use punix.Paths.Append.{Resolved}
use punix.Paths.Resolve.{dir, meant, resolve_lem}
use punix.Paths.Cwd.{getcwd, GotCwd, getcwd_lem}

-- `a/../b` without a slash in front
abbrev up : List ℕ
up = b'a' ∷ b'/' ∷ b'.' ∷ b'.' ∷ b'/' ∷ b'b' ∷ []

abbrev home : List ℕ
home = b'/' ∷ b'h' ∷ []

abbrev up_buf : Buf
up_buf = store (λ i. 120) 0 (cstr up [])

up-IsText : IsText up
up-IsText =
    (omega arith, (omega arith, (omega arith, (omega arith, (omega arith, (omega arith, tt))))))

home-IsText : IsText home
home-IsText = (omega arith, (omega arith, tt))

up-Holds : Holds up_buf 0 up
unfolding update
up-Holds = ((refl, (refl, (refl, (refl, (refl, (refl, tt)))))), refl)

normalize_lem_example : Normalized up_buf 64 up
normalize_lem_example = normalize_lem up_buf 64 up up-IsText up-Holds (omega arith) (omega arith)

resolve_lem_example :
    Resolved (resolve_path (cstr home []) (some (cstr up [])) up_buf 64) (meant home up)
resolve_lem_example =
    resolve_lem home [] up [] up_buf 64 home-IsText up-IsText (omega arith) (omega arith)

getcwd_lem_example :
    (p : Buf) × (found : Bool) × (getcwd (some (cstr home [])) up_buf 3 ≡ some (p, found))
    × GotCwd (dir home) 3 p found
    × AgreeFrom 3 up_buf p
getcwd_lem_example = getcwd_lem home [] up_buf 3 home-IsText (omega arith)
