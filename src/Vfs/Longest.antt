-- ===== src/Vfs/Longest.antt =====
-- `path_to_fs` of fs/vfs.c takes the longest of the mounts above a path.
use punix.Base.{
  ℕ, zero, suc, ◌+◌, ◌<◌, ◌≤◌, ◌≡◌, refl, ap, subst, ◌∙◌, arith, Bool, true, false, ◌⊎◌, inl, inr,
  Option, none, some, List, ◌∷◌, length, if◌then◌else◌, ◌>>=◌, Bool-cases, lt→ltb, le→ltb,
  ℕ_discrete, dec_lt,
}
use punix.Kutils.Strings.Text.{IsText, cstr}
use punix.Paths.{is_slash}
use punix.Vfs.{Vfs, Mount, max_mounts, under, better, best_loop, path_to_fs}
use punix.Vfs.Prefix.{IsMount, Under, under_lem}

-- Among the mounts below `k` the state of the loop is the one with the longest path.
abbrev pub Chosen : (ℕ → Mount) → (ℕ → List ℕ) → List ℕ → ℕ → Option ℕ → ℕ → Type 0
Chosen mounts texts t k best len =
    ((best ≡ none)
      × (len ≡ 0)
      × ((j : ℕ) → j < k → (mounts j).active ≡ true → Under (texts j) t → ⊥))
    ⊎ ((i : ℕ) × (i < k)
        × ((mounts i).active ≡ true)
        × Under (texts i) t
        × (best ≡ (mounts i).fs)
        × (len ≡ length (texts i))
        × ((j : ℕ) → j < k → (mounts j).active ≡ true → Under (texts j) t → length (texts j) ≤ len))

-- Every active mount has its text.
abbrev pub WellMounted : (ℕ → Mount) → (ℕ → List ℕ) → Type 0
WellMounted mounts texts =
    (i : ℕ) → i < max_mounts → (mounts i).active ≡ true → IsMount (mounts i) (texts i)

-- Every active mount has a file system, as `vfs_mount` takes care of.
abbrev pub HaveFs : (ℕ → Mount) → Type 0
HaveFs mounts =
    (i : ℕ) → i < max_mounts → (mounts i).active ≡ true → (fs : ℕ) × ((mounts i).fs ≡ some fs)

-- No active mount is above the path.
abbrev pub NoneAbove : (ℕ → Mount) → (ℕ → List ℕ) → List ℕ → Type 0
NoneAbove mounts texts t =
    (j : ℕ) → j < max_mounts → (mounts j).active ≡ true → Under (texts j) t → ⊥

module _ (mounts : ℕ → Mount) (texts : ℕ → List ℕ) (t : List ℕ) where
  extend :
      (P : ℕ → Type 0) (k : ℕ)
      → ((j : ℕ) → j < k → (mounts j).active ≡ true → Under (texts j) t → P j)
      → ((mounts k).active ≡ true → Under (texts k) t → P k)
      → (j : ℕ) → j < k + 1
      → (mounts j).active ≡ true
      → Under (texts j) t
      → P j
  extend P k all last j h = elim (ℕ_discrete j k) [
    | yes e ↦ rw e last
    | no ne ↦ all j (omega arith)
  ]

  skip :
      (k : ℕ) (best : Option ℕ) (len : ℕ)
      → Chosen mounts texts t k best len
      → ((mounts k).active ≡ true → 0 < length (texts k))
      → ((mounts k).active ≡ true → Under (texts k) t → length (texts k) ≤ len)
      → Chosen mounts texts t (k + 1) best len
  skip k best len (inl (eb, el, all)) some_text last =
      inl (eb, el, extend (λ j. ⊥) k all (λ a u. absurd (omega (arith, some_text a, last a u))))
  skip k best len (inr (i, h, a, u, eb, el, all)) some_text last =
      inr (i, omega arith, a, u, eb, el, extend (λ j. length (texts j) ≤ len) k all last)

  take_mount :
      (k : ℕ) (best : Option ℕ) (len : ℕ)
      → Chosen mounts texts t k best len
      → (mounts k).active ≡ true
      → Under (texts k) t
      → len < length (texts k)
      → Chosen mounts texts t (k + 1) (mounts k).fs (length (texts k))
  take_mount k best len (inl (eb, el, all)) a u h = inr (
    k,
    omega arith,
    a,
    u,
    refl,
    refl,
    extend (λ j. length (texts j) ≤ length (texts k)) k (λ j low a' u'. absurd (all j low a' u'))
        (λ a' u'. omega arith),
  )
  take_mount k best len (inr (i, low_i, ai, ui, eb, el, all)) a u h = inr (
    k,
    omega arith,
    a,
    u,
    refl,
    refl,
    extend (λ j. length (texts j) ≤ length (texts k)) k
        (λ j low a' u'. omega (arith, all j low a' u')) (λ a' u'. omega arith),
  )

  -- One active mount.
  judge_step :
      (k : ℕ) (best : Option ℕ) (len : ℕ) (b : Bool)
      → Chosen mounts texts t k best len
      → (mounts k).active ≡ true
      → 0 < length (texts k)
      → (b ≡ true → Under (texts k) t)
      → (b ≡ false → Under (texts k) t → ⊥)
      → (best' : Option ℕ) × (len' : ℕ) × (better (mounts k) (b, length (texts k)) (best, len)
          ≡ (best', len'))
        × Chosen mounts texts t (k + 1) best' len'
  judge_step k best len false chosen on some_text over apart =
      (best, len, refl, skip k best len chosen (λ a. some_text) (λ a u. absurd (apart refl u)))
  judge_step k best len true chosen on some_text over apart = elim (dec_lt len (length (texts k))) [
    | yes longer ↦ (
      (mounts k).fs,
      length (texts k),
      rw (lt→ltb len (length (texts k)) longer) refl,
      take_mount k best len chosen on (over refl) longer,
    )
    | no not_longer ↦ (
      best,
      len,
      rw (le→ltb len (length (texts k)) (omega arith)) refl,
      skip k best len chosen (λ a. some_text) (λ a u. omega arith),
    )
  ]

  best_loop-off :
      (left k : ℕ) (p : List ℕ) (best : Option ℕ) (len : ℕ)
      → (mounts k).active ≡ false
      → best_loop (suc left) k mounts p (best, len) ≡ best_loop left (k + 1) mounts p (best, len)
  unfolding best_loop
  best_loop-off left k p best len off = rw off refl

  best_loop-on :
      (left k : ℕ) (p : List ℕ) (best : Option ℕ) (len : ℕ) (b : Bool) (n : ℕ)
      → (mounts k).active ≡ true
      → under (mounts k) p ≡ some (b, n)
      → best_loop (suc left) k mounts p (best, len)
        ≡ best_loop left (k + 1) mounts p (better (mounts k) (b, n) (best, len))
  unfolding best_loop
  best_loop-on left k p best len b n on judged =
      let next : Bool × ℕ → Option (Option ℕ) =
        λ r. best_loop left (k + 1) mounts p (better (mounts k) r (best, len)) in
      ap
        (λ x.
          if x then under (mounts k) p >>= next else best_loop left (k + 1) mounts p (best, len))
        on
      ∙ ap (λ o. o >>= next) judged

  best_loop_lem :
      (left k : ℕ) (rest : List ℕ) (best : Option ℕ) (len : ℕ)
      → WellMounted mounts texts
      → IsText t
      → k + left ≡ max_mounts
      → Chosen mounts texts t k best len
      → (r : Option ℕ) × (n : ℕ) × (best_loop left k mounts (cstr t rest) (best, len) ≡ some r)
        × Chosen mounts texts t max_mounts r n
  unfolding best_loop
  best_loop_lem zero k rest best len well text e chosen =
      let e' : k ≡ max_mounts = omega arith in
      (best, len, refl, subst (λ x. Chosen mounts texts t x best len) e' chosen)
  best_loop_lem (suc left) k rest best len well text e chosen =
      elim (Bool-cases (mounts k).active) [
        | inr off ↦
            let (r, n, eq, done) =
              best_loop_lem left (k + 1) rest best len well text (omega arith)
                (skip k best len chosen (λ a. absurd (cc)) (λ a. absurd (cc))) in
            (r, n, best_loop-off left k (cstr t rest) best len off ∙ eq, done)
        | inl on ↦
            let is = well k (omega arith) on in
            let (b, judged, over, apart) = under_lem (mounts k) (texts k) t rest is text in
            let (best', len', state, chosen') = judge_step k best len b chosen on is.2 over apart in
            let (r, n, eq, done) =
              best_loop_lem left (k + 1) rest best' len' well text (omega arith) chosen' in
            (
              r,
              n,
              best_loop-on left k (cstr t rest) best len b (length (texts k)) on judged
                  ∙ ap (best_loop left (k + 1) mounts (cstr t rest)) state
                  ∙ eq,
              done,
            )
      ]

pub path_to_fs-Chosen :
    (v : Vfs) (texts : ℕ → List ℕ) (c : ℕ) (t rest : List ℕ)
    → WellMounted v.mounts texts
    → IsText (c ∷ t)
    → is_slash c ≡ true
    → (r : Option ℕ) × (n : ℕ) × (path_to_fs v (cstr (c ∷ t) rest) ≡ some r)
      × Chosen v.mounts texts (c ∷ t) max_mounts r n
unfolding path_to_fs
path_to_fs-Chosen v texts c t rest well text slash =
    let (r, n, eq, chosen) =
      best_loop_lem v.mounts texts (c ∷ t) max_mounts 0 rest none 0 well text (omega arith)
        (inl (refl, refl, λ j h. absurd (omega arith))) in
    (
      r,
      n,
      ap
            (λ x.
              if x
              then best_loop max_mounts 0 v.mounts (cstr (c ∷ t) rest) (none, 0)
              else some none)
            slash
          ∙ eq,
      chosen,
    )

Chosen-null :
    (mounts : ℕ → Mount) (texts : ℕ → List ℕ) (t : List ℕ) (r : Option ℕ) (n : ℕ)
    → HaveFs mounts
    → Chosen mounts texts t max_mounts r n
    → (r ≡ none → NoneAbove mounts texts t) × (NoneAbove mounts texts t → r ≡ none)
Chosen-null mounts texts t r n have (inl (er, en, apart)) = ((λ e. apart), (λ apart'. er))
Chosen-null mounts texts t r n have (inr (i, low, on, above, er, en, most)) =
    let (fs, some_fs) = have i low on in
    ((λ e. absurd (cc)), (λ apart. absurd (apart i low on above)))

-- For a path that starts with a slash `path_to_fs` finds the file system of a mount above the path
-- whose own path is the longest, and null exactly if no mount is above it. Every active mount holds
-- a text that is not empty and fits, and has a file system.
pub path_to_fs_lem :
    (v : Vfs) (texts : ℕ → List ℕ) (c : ℕ) (t rest : List ℕ)
    → WellMounted v.mounts texts
    → HaveFs v.mounts
    → IsText (c ∷ t)
    → is_slash c ≡ true
    → (r : Option ℕ) × (n : ℕ) × (path_to_fs v (cstr (c ∷ t) rest) ≡ some r)
      × Chosen v.mounts texts (c ∷ t) max_mounts r n
      × (r ≡ none → NoneAbove v.mounts texts (c ∷ t))
      × (NoneAbove v.mounts texts (c ∷ t) → r ≡ none)
path_to_fs_lem v texts c t rest well have text slash =
    let (r, n, eq, chosen) = path_to_fs-Chosen v texts c t rest well text slash in
    let (apart, null) = Chosen-null v.mounts texts (c ∷ t) r n have chosen in
    (r, n, eq, chosen, apart, null)
