-- ===== src/Paths/Cwd.antt =====
-- `vfs_getcwd` of fs/vfs.c, into a buffer that is not null.
use punix.Base.{
  ℕ, zero, suc, ◌+◌, ◌<◌, ◌≤◌, ◌≡◌, refl, ◌∙◌, arith, Bool, true, false, Option, none, some, List,
  [], ◌∷◌, length, leb, leb→le, leb→lt, Bool-cases, inl, inr, ◌==◌, ◌!=◌, if◌then◌else◌, update,
  update_self, update_ne, ◌>>=◌, ne→==,
}
use punix.Buffer.{Buf, Reads, Holds, Reads-cong, AgreeFrom, AgreeBelow}
use punix.Kutils.Strings.Text.{IsText, cstr}
use punix.Paths.Resolve.{dir, IsText-dir}

-- `while (i + 1 < size && cwd[i] != 0)`; `left` is `size - 1 - i`. The result is the buffer, `i` and
-- `cwd[i]`; `none` is a read behind the end of `cwd`.
pub copy_cwd : ℕ → List ℕ → Buf → ℕ → Option (Buf × ℕ × ℕ)
copy_cwd left [] buf i = none
copy_cwd zero (c ∷ cwd) buf i = some (buf, i, c)
copy_cwd (suc left) (c ∷ cwd) buf i =
    let rest = copy_cwd left cwd (update buf i c) (i + 1) in
    if c != 0 then rest else some (buf, i, c)

-- `if (cwd[0] == 0) cwd = "/"`
abbrev pub or_root : List ℕ → Option (List ℕ)
or_root [] = none
or_root (c ∷ cwd) = if c == 0 then some (b'/' ∷ 0 ∷ []) else some (c ∷ cwd)

-- `if (cwd[i] != 0)` after the loop
abbrev pub getcwd_end : Buf → ℕ → ℕ → Option (Buf × Bool)
getcwd_end p i c = if c != 0 then some (update p 0 0, false) else some (update p i 0, true)

-- The buffer, and whether it is returned; the first argument is the directory of the running task.
pub getcwd : Option (List ℕ) → Buf → ℕ → Option (Buf × Bool)
getcwd current buf zero = some (buf, false)
getcwd none buf (suc n) = some (update buf 0 0, false)
getcwd (some cwd) buf (suc n) =
    or_root cwd >>= (λ path. copy_cwd n path buf 0 >>= (λ (p, i, c). getcwd_end p i c))

copy_cwd-next :
    (left c : ℕ) (cwd : List ℕ) (buf : Buf) (i : ℕ)
    → 0 < c
    → copy_cwd (suc left) (c ∷ cwd) buf i ≡ copy_cwd left cwd (update buf i c) (i + 1)
unfolding copy_cwd
copy_cwd-next left c cwd buf i h = let some_c : (c != 0) ≡ true = ground arith in rw some_c refl

-- The loop stops at the end of the text or of the buffer.
copy_cwd_fits :
    (left : ℕ) (t rest : List ℕ) (buf : Buf) (i : ℕ)
    → IsText t
    → length t ≤ left
    → (p : Buf) × (copy_cwd left (cstr t rest) buf i ≡ some (p, i + length t, 0))
      × Reads p i t
      × AgreeBelow i buf p
      × AgreeFrom (i + length t) buf p
unfolding copy_cwd
copy_cwd_fits zero [] rest buf i text h =
    let e : i + 0 ≡ i = omega arith in (buf, rw e refl, tt, λ j k. refl, λ j k. refl)
copy_cwd_fits (suc left) [] rest buf i text h =
    let e : i + 0 ≡ i = omega arith in (buf, rw e refl, tt, λ j k. refl, λ j k. refl)
copy_cwd_fits zero (c ∷ t) rest buf i text h = absurd (omega arith)
copy_cwd_fits (suc left) (c ∷ t) rest buf i text h =
    let (p, eq, reads, below, above) =
      copy_cwd_fits left t rest (update buf i c) (i + 1) text.1 (omega arith) in
    let e : i + suc (length t) ≡ i + 1 + length t = omega arith in
    (
      p,
      copy_cwd-next left c _ buf i text.0 ∙ rw e eq,
      (below i (omega arith) ∙ update_self buf i c, reads),
      λ j k. below j (omega arith) ∙ update_ne buf i j c (omega arith),
      λ j k. above j (omega arith) ∙ update_ne buf i j c (omega arith),
    )

copy_cwd_cut :
    (left : ℕ) (t rest : List ℕ) (buf : Buf) (i : ℕ)
    → IsText t
    → left < length t
    → (p : Buf) × (c : ℕ) × (copy_cwd left (cstr t rest) buf i ≡ some (p, i + left, c))
      × (0 < c)
      × AgreeFrom (i + left) buf p
unfolding copy_cwd
copy_cwd_cut left [] rest buf i text h = absurd (omega arith)
copy_cwd_cut zero (c ∷ t) rest buf i text h =
    let e : i + 0 ≡ i = omega arith in (buf, c, rw e refl, text.0, λ j k. refl)
copy_cwd_cut (suc left) (c ∷ t) rest buf i text h =
    let (p, d, eq, pos, above) =
      copy_cwd_cut left t rest (update buf i c) (i + 1) text.1 (omega arith) in
    let e : i + suc left ≡ i + 1 + left = omega arith in
    (
      p,
      d,
      copy_cwd-next left c _ buf i text.0 ∙ rw e eq,
      pos,
      λ j k. above j (omega arith) ∙ update_ne buf i j c (omega arith),
    )

getcwd-some :
    (d drest : List ℕ) (buf : Buf) (n : ℕ)
    → IsText d
    → (rest : List ℕ) × (getcwd (some (cstr d drest)) buf (suc n)
        ≡ copy_cwd n (cstr (dir d) rest) buf 0 >>= (λ (p, i, c). getcwd_end p i c))
unfolding getcwd
getcwd-some [] drest buf n text = ([], refl)
getcwd-some (c ∷ d) drest buf n text = (drest, rw (ne→== c 0 (omega (arith, text.0))) refl)

getcwd_end-cut : (p : Buf) (n c : ℕ) → 0 < c → getcwd_end p (0 + n) c ≡ some (update p 0 0, false)
getcwd_end-cut p n c h = let some_c : (c != 0) ≡ true = ground arith in rw some_c refl

-- What is left by a call for the directory `d`: the directory if it fits with its terminator, else
-- an empty text and a null result.
abbrev pub GotCwd : List ℕ → ℕ → Buf → Bool → Type 0
GotCwd d size p true = (length d < size) × Holds p 0 d
GotCwd d size p false = (size ≤ length d) × (p 0 ≡ 0)

-- `vfs_getcwd` gives the directory of the running task, the root if that is empty, whenever it fits
-- into the buffer with its terminator, and else null and an empty text. It never writes behind the
-- size it is given. The size is not zero.
pub getcwd_lem :
    (d drest : List ℕ) (buf : Buf) (size : ℕ)
    → IsText d
    → 0 < size
    → (p : Buf) × (found : Bool) × (getcwd (some (cstr d drest)) buf size ≡ some (p, found))
      × GotCwd (dir d) size p found
      × AgreeFrom size buf p
getcwd_lem d drest buf zero text ne = absurd (omega arith)
getcwd_lem d drest buf (suc n) text ne =
    let (rest, start) = getcwd-some d drest buf n text in
    elim (Bool-cases (leb (length (dir d)) n)) [
      | inl h ↦
          let (p, eq, reads, below, above) =
            copy_cwd_fits n (dir d) rest buf 0 (IsText-dir d text) (leb→le (length (dir d)) n h) in
          (
            update p (0 + length (dir d)) 0,
            true,
            start ∙ rw eq refl,
            (
              omega (arith, leb→le (length (dir d)) n h),
              (
                Reads-cong p _ 0 (dir d)
                    (λ j low high. update_ne p (0 + length (dir d)) j 0 (omega arith)) reads,
                update_self p (0 + length (dir d)) 0,
              ),
            ),
            λ j k.
                update_ne p (0 + length (dir d)) j 0 (omega (arith, leb→le (length (dir d)) n h))
                ∙ above j (omega (arith, leb→le (length (dir d)) n h)),
          )
      | inr h ↦
          let (p, c, eq, pos, above) =
            copy_cwd_cut n (dir d) rest buf 0 (IsText-dir d text) (leb→lt (length (dir d)) n h) in
          (
            update p 0 0,
            false,
            start ∙ rw eq (getcwd_end-cut p n c pos),
            (omega (arith, leb→lt (length (dir d)) n h), update_self p 0 0),
            λ j k. update_ne p 0 j 0 (omega arith) ∙ above j (omega arith),
          )
    ]
