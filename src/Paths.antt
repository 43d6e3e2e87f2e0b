-- ===== src/Paths.antt =====
-- `vfs_normalize_path` and `vfs_resolve_path` of fs/vfs.c, on a buffer that is a function from the
-- index; `vfs_getcwd` stands in Paths/Cwd. `none` is a string function that leaves its buffer.
pub mod Names
pub mod Parse
pub mod Build
pub mod Normal
pub mod Absolute
pub mod Join
pub mod Append
pub mod Resolve
pub mod Cwd
pub mod Canonical
mod Tests
use punix.Base.{
  ℕ, zero, suc, ◌+◌, ◌-◌, Bool, true, false, ◌&&◌, ◌||◌, not, Option, none, some, List, [], ◌∷◌,
  leb, ltb, ◌==◌, ◌!=◌, if◌then◌else◌, ◌>>=◌, length, update, set,
}
use punix.Buffer.{Buf, bytes, store, copy}
use punix.Kutils.Strings.{strlen, strncpy}

-- `VFS_MAX_SEGMENTS`
abbrev pub max_segments : ℕ
max_segments = 64

abbrev pub is_slash : ℕ → Bool
is_slash c = c == b'/'

-- `path[0] = '/'; if (buf_size > 1) path[1] = '\0';`
abbrev pub root : Buf → ℕ → Buf
root path size =
    let slashed = update path 0 b'/' in if ltb 1 size then update slashed 1 0 else slashed

-- The shift to the right by one, from the index `i` down.
abbrev pub shift : ℕ → Buf → Buf
shift zero path = path
shift (suc i) path = shift i (update path (suc i) (path i))

-- `while (i < len && path[i] == '/') i++`; the result is `len - i` and `i`.
pub skip_slashes : Buf → ℕ → ℕ → ℕ × ℕ
skip_slashes path zero i = (0, i)
skip_slashes path (suc left) i =
    let rest = skip_slashes path left (i + 1) in if is_slash (path i) then rest else (suc left, i)

-- `while (i < len && path[i] != '/') i++`
pub skip_name : Buf → ℕ → ℕ → ℕ × ℕ
skip_name path zero i = (0, i)
skip_name path (suc left) i =
    let rest = skip_name path left (i + 1) in if is_slash (path i) then (suc left, i) else rest

-- The start and the length of a segment; a list of segments starts with the newest one.
abbrev pub Segment : Type 0
Segment = ℕ × ℕ

abbrev pub pop : List Segment → List Segment
pop [] = []
pop (s ∷ segs) = segs

-- What a component of the path does to the segments.
pub take_segment : Buf → ℕ → ℕ → List Segment → List Segment
take_segment path start len segs =
    if len == 0
    then segs
    else if len == 1 && path start == b'.'
    then segs
    else if len == 2 && (path start == b'.' && path (start + 1) == b'.')
    then pop segs
    else if ltb (length segs) max_segments
    then (start, len) ∷ segs
    else segs

-- The loop over the path, on fuel; `left` is `len - i`.
pub parse : ℕ → Buf → ℕ → ℕ → List Segment → List Segment
parse zero path left i segs = segs
parse (suc fuel) path left i segs =
    let (left1, start) = skip_slashes path left i in
    let (left2, end) = skip_name path left1 start in
    let rest = parse fuel path left2 end (take_segment path start (end - start) segs) in
    if left == 0 then segs else rest

abbrev pub reverse_onto {ℓ} : {A : Type ℓ} → List A → List A → List A
reverse_onto [] acc = acc
reverse_onto (x ∷ xs) acc = reverse_onto xs (x ∷ acc)

-- A segment is copied to `pos`, cut to the room left; `none` is the `break` for lack of room.
pub place_segment : ℕ → Buf → ℕ → Segment → Option (Buf × ℕ)
place_segment size path pos (start, len) =
    if leb size (pos + len + 1)
    then (if leb size (pos + 2)
        then none
        else some (copy (size - pos - 2) path pos start, pos + (size - pos - 2)))
    else some (copy len path pos start, pos + len)

-- The loop over the segments in their order.
pub build : ℕ → Buf → ℕ → List Segment → Buf × ℕ
build size path pos [] = (path, pos)
build size path pos (seg ∷ []) = elim (place_segment size path pos seg) [
  | none ↦ (path, pos)
  | some r ↦ r
]
build size path pos (seg ∷ next ∷ segs) = elim (place_segment size path pos seg) [
  | none ↦ (path, pos)
  | some (p, pos1) ↦
      if leb size (pos1 + 1)
      then (p, pos1)
      else build size (update p pos1 b'/') (pos1 + 1) (next ∷ segs)
]

-- `if (pos >= buf_size) pos = buf_size - 1; path[pos] = '\0';`
abbrev pub terminate : ℕ → Buf × ℕ → Buf
terminate size (path, pos) = update path (if leb size pos then size - 1 else pos) 0

pub rebuild : ℕ → Buf → List Segment → Buf
rebuild size path [] = root path size
rebuild size path (seg ∷ segs) =
    terminate size (build size (update path 0 b'/') 1 (reverse_onto (seg ∷ segs) []))

-- From `size_t len = k_strlen(path)` on.
pub collapse : Buf → ℕ → Option Buf
collapse path size =
    strlen (bytes path 0 size) >>= (λ len. some (rebuild size path (parse len path len 0 [])))

-- The path starts with a slash, after a shift by one if need be.
pub normalize : Buf → ℕ → Option Buf
normalize path size =
    if size == 0
    then some path
    else if path 0 == 0
    then some (root path size)
    else if is_slash (path 0)
    then collapse path size
    else strlen (bytes path 0 size) >>= (λ len.
      if leb size (len + 1)
      then (if ltb size 2
          then some path
          else collapse (update (shift (size - 2 + 1) path) 0 b'/') size)
      else collapse (update (shift (len + 1) path) 0 b'/') size)

-- `k_strncpy(resolved + i, src, n)` and `resolved[size - 1] = '\0'`.
abbrev pub copy_string : Buf → ℕ → ℕ → List ℕ → Option Buf
copy_string path size i src =
    strncpy (bytes path i (size - i)) src (size - i)
    >>= (λ out. some (update (store path i out) (size - 1) 0))

-- The current directory, or the root if it is empty.
abbrev pub start_at : List ℕ → Buf → ℕ → Option Buf
start_at [] path size = none
start_at (c ∷ cwd) path size =
    if c != 0 then copy_string path size 0 (c ∷ cwd) else some (root path size)

-- A relative path is put behind the directory.
pub append_path : Buf → ℕ → List ℕ → Option Buf
append_path path size pathname = strlen (bytes path 0 size) >>= (λ len0.
    let rooted = if len0 == 0 then root path size else path in
    let len = if len0 == 0 then 1 else len0 in
    let needs = ltb len (size - 1) && not (is_slash (rooted (len - 1))) in
    let slashed = if needs then update (update rooted len b'/') (len + 1) 0 else rooted in
    let len1 = if needs then len + 1 else len in
    (if ltb len1 (size - 1) then copy_string slashed size len1 pathname else some slashed)
    >>= (λ joined. normalize joined size))

-- `vfs_resolve_path` into a buffer that is not null; `none` as the path name is a null pointer.
pub resolve_path : List ℕ → Option (List ℕ) → Buf → ℕ → Option Buf
resolve_path cwd none path size =
    if size == 0 then some path else start_at cwd path size >>= (λ p. normalize p size)
resolve_path cwd (some []) path size = if size == 0 then some path else none
resolve_path cwd (some (c ∷ name)) path size =
    if size == 0
    then some path
    else if c == 0
    then start_at cwd path size >>= (λ p. normalize p size)
    else if is_slash c
    then copy_string path size 0 (c ∷ name) >>= (λ p. normalize p size)
    else start_at cwd path size >>= (λ p. append_path p size (c ∷ name))
