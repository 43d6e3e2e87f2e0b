-- ===== src/Paths/Parse.antt =====
-- The segments that the first loop of `vfs_normalize_path` finds.
use punix.Base.{
  ℕ, zero, suc, ◌+◌, ◌-◌, ◌<◌, ◌≤◌, ◌≡◌, refl, sym, ap, ◌∙◌, arith, false, List, [], ◌∷◌, ◌++◌, map,
  length, length-append, ◌==◌, ltb, lt→ltb, ne→==, both_branches, ◌&&◌, Bool-cases, inl, inr,
}
use punix.Buffer.{Buf, bytes, Reads, bytes-Reads}
use punix.Paths.{is_slash, skip_slashes, skip_name, Segment, take_segment, parse, pop, max_segments}
use punix.Paths.Names.{Name, names, walk, walk_all, IsPlain, AtEnd, names-name, pop_name}

abbrev pub slice : Buf → Segment → Name
slice path (start, len) = bytes path start len

-- Segments behind one another, newest first, that end before `hi`, and start behind the first slash.
abbrev pub Stacked : ℕ → List Segment → Type 0
Stacked hi [] = 1 ≤ hi
Stacked hi ((start, len) ∷ segs) = (start + len + 1 ≤ hi) × Stacked start segs

pub Stacked-mono : (a b : ℕ) (segs : List Segment) → a ≤ b → Stacked a segs → Stacked b segs
Stacked-mono a b [] h s = omega arith
Stacked-mono a b ((start, len) ∷ segs) h s = (omega (arith, s.0), s.1)

abbrev StartsName : List ℕ → Type 0
StartsName [] = Unit
StartsName (c ∷ t) = is_slash c ≡ false

skip_slashes_lem :
    (path : Buf) (t : List ℕ) (i : ℕ)
    → Reads path i t
    → (t' : List ℕ) × (i' : ℕ) × (skip_slashes path (length t) i ≡ (length t', i'))
      × Reads path i' t'
      × (names t ≡ names t')
      × StartsName t'
      × (i' + length t' ≡ i + length t)
      × (i ≤ i')
      × (AtEnd t → 0 < length t → i < i')
unfolding skip_slashes
skip_slashes_lem path [] i r =
    ([], i, refl, tt, refl, tt, refl, omega arith, λ e h. absurd (omega arith))
skip_slashes_lem path (c ∷ t) i r = elim (Bool-cases (is_slash c)) [
  | inl e ↦
      let (t', i', eq, r', same, starts, sum, le, moves) = skip_slashes_lem path t (i + 1) r.1 in
      (
        t',
        i',
        rw (r.0, e) eq,
        r',
        (rw e same),
        starts,
        omega (arith, sum),
        omega (arith, le),
        λ q h. omega (arith, le),
      )
  | inr e ↦ (c ∷ t, i, rw (r.0, e) refl, r, refl, e, refl, omega arith, λ q h. absurd (cc))
]

skip_name_lem :
    (path : Buf) (t : List ℕ) (i : ℕ)
    → Reads path i t
    → (w t' : List ℕ) × (t ≡ w ++ t')
      × IsPlain w
      × AtEnd t'
      × (skip_name path (length t) i ≡ (length t', i + length w))
      × Reads path i w
      × Reads path (i + length w) t'
unfolding skip_name
skip_name_lem path [] i r = ([], [], refl, tt, tt, ap (λ k. (0, k)) (omega arith), tt, tt)
skip_name_lem path (c ∷ t) i r = elim (Bool-cases (is_slash c)) [
  | inl e ↦ (
    [],
    c ∷ t,
    refl,
    tt,
    e,
    rw (r.0, e) (ap (λ k. (suc (length t), k)) (omega arith)),
    tt,
    let same : i + 0 ≡ i = omega arith in rw same r,
  )
  | inr e ↦
      let (w, t', split, plain, ends, eq, rw1, rt) = skip_name_lem path t (i + 1) r.1 in
      let same : i + suc (length w) ≡ i + 1 + length w = omega arith in
      (
        c ∷ w,
        t',
        ap (λ l. c ∷ l) split,
        (e, plain),
        ends,
        rw (r.0, e) (eq ∙ ap (λ k. (length t', k)) (sym same)),
        (r.0, rw1),
        rw same rt,
      )
]

map-pop :
    (path : Buf) (segs : List Segment)
    → map (slice path) (pop segs) ≡ pop_name (map (slice path) segs)
map-pop path [] = refl
map-pop path (seg ∷ segs) = refl

take_segment-long :
    (path : Buf) (start len : ℕ) (segs : List Segment)
    → 2 < len
    → length segs < max_segments
    → take_segment path start len segs ≡ (start, len) ∷ segs
unfolding take_segment
take_segment-long path start len segs long room =
    rw (ne→== len 0 (omega arith), ne→== len 1 (omega arith), ne→== len 2 (omega arith))
      (rw (lt→ltb (length segs) max_segments room) refl)

take_segment_lem :
    (path : Buf) (start : ℕ) (w : List ℕ) (segs : List Segment)
    → Reads path start w
    → length segs < max_segments
    → map (slice path) (take_segment path start (length w) segs) ≡ walk w (map (slice path) segs)
unfolding take_segment
take_segment_lem path start [] segs r room = refl
take_segment_lem path start (c ∷ []) segs r room = elim (Bool-cases (c == b'.')) [
  | inl e ↦ rw (r.0, e) refl
  | inr e ↦ rw (r.0, e) (rw (lt→ltb (length segs) max_segments room, r.0) refl)
]
take_segment_lem path start (c ∷ d ∷ []) segs r room = elim (Bool-cases (c == b'.' && d == b'.')) [
  | inl e ↦ rw (r.0, r.1.0, e) (map-pop path segs)
  | inr e ↦ rw (r.0, r.1.0, e) (rw (lt→ltb (length segs) max_segments room, r.0, r.1.0) refl)
]
take_segment_lem path start (c ∷ d ∷ e ∷ w) segs r room =
    rw (take_segment-long path start (length (c ∷ d ∷ e ∷ w)) segs (omega arith) room)
      (ap (λ n. n ∷ map (slice path) segs) (bytes-Reads path start (c ∷ d ∷ e ∷ w) r))

pop_bounds :
    (lo hi : ℕ) (segs : List Segment)
    → lo ≤ hi
    → Stacked lo segs
    → (length (pop segs) ≤ length segs + 1) × Stacked hi (pop segs)
pop_bounds lo hi [] h s = (omega arith, omega arith)
pop_bounds lo hi ((start, len) ∷ segs) h s =
    (omega arith, Stacked-mono start hi segs (omega (arith, s.0)) s.1)

-- A component adds one segment at most, which ends where the component ends.
take_segment_bounds :
    (path : Buf) (start len i : ℕ) (segs : List Segment)
    → i + 1 ≤ start
    → Stacked (i + 1) segs
    → (length (take_segment path start len segs) ≤ length segs + 1)
      × Stacked (start + len + 1) (take_segment path start len segs)
unfolding take_segment
take_segment_bounds path start len i segs h s =
    let P : List Segment → Type 0 =
      λ segs'. (length segs' ≤ length segs + 1) × Stacked (start + len + 1) segs' in
    let kept : P segs =
      (omega arith, Stacked-mono (i + 1) (start + len + 1) segs (omega arith) s) in
    let pushed : P ((start, len) ∷ segs) =
      (omega arith, (omega arith, Stacked-mono (i + 1) start segs h s)) in
    both_branches P (len == 0) kept (
      both_branches P (len == 1 && path start == b'.') kept (
        both_branches P (len == 2 && (path start == b'.' && path (start + 1) == b'.'))
          (pop_bounds (i + 1) (start + len + 1) segs (omega arith) s)
          (both_branches P (ltb (length segs) max_segments) pushed kept)))

-- The first name of what is left, and the rest.
walk_all-names :
    (w rest : List ℕ) (ns : List Name)
    → IsPlain w
    → AtEnd rest
    → walk_all (names (w ++ rest)) ns ≡ walk_all (names rest) (walk w ns)
walk_all-names [] rest ns p e = refl
walk_all-names (c ∷ w) rest ns p e = ap (λ l. walk_all l ns) (names-name c w rest p e)

parse-step :
    (fuel : ℕ) (path : Buf) (left i left1 start left2 end : ℕ) (segs : List Segment)
    → 0 < left
    → skip_slashes path left i ≡ (left1, start)
    → skip_name path left1 start ≡ (left2, end)
    → parse (suc fuel) path left i segs
      ≡ parse fuel path left2 end (take_segment path start (end - start) segs)
unfolding parse
parse-step fuel path left i left1 start left2 end segs h e1 e2 =
    rw (ne→== left 0 (omega arith), e1, e2) refl

-- The loop ends with the names that the path leads to, newest first; the segments stand behind one
-- another.
pub parse_lem :
    (fuel : ℕ) (path : Buf) (t : List ℕ) (i : ℕ) (segs : List Segment)
    → length t ≤ fuel
    → Reads path i t
    → AtEnd t
    → length segs + length t ≤ max_segments
    → Stacked (i + 1) segs
    → (map (slice path) (parse fuel path (length t) i segs)
        ≡ walk_all (names t) (map (slice path) segs))
      × Stacked (i + length t + 1) (parse fuel path (length t) i segs)
unfolding parse
parse_lem zero path [] i segs enough r e few s =
    (refl, Stacked-mono (i + 1) (i + 0 + 1) segs (omega arith) s)
parse_lem zero path (c ∷ t) i segs enough r e few s = absurd (omega arith)
parse_lem (suc fuel) path [] i segs enough r e few s =
    (refl, Stacked-mono (i + 1) (i + 0 + 1) segs (omega arith) s)
parse_lem (suc fuel) path (c ∷ t) i segs enough r e few s =
    let (t1, start, eq1, r1, same, starts, sum, le, moves) = skip_slashes_lem path (c ∷ t) i r in
    let (w, t2, split, plain, ends, eq2, rw1, r2) = skip_name_lem path t1 start r1 in
    let on : i < start = moves e (omega arith) in
    let len : start + length w - start ≡ length w = omega arith in
    let segs1 = take_segment path start (length w) segs in
    let bounds = take_segment_bounds path start (length w) i segs (omega arith) s in
    let sizes : length t1 ≡ length w + length t2 = ap length split ∙ length-append w t2 in
    let (found, stacked) =
      parse_lem fuel path t2 (start + length w) segs1 (omega arith) r2 ends
        (omega (arith, bounds.0)) bounds.1 in
    let step : parse (suc fuel) path (length (c ∷ t)) i segs
        ≡ parse fuel path (length t2) (start + length w) segs1 =
      parse-step fuel path (length (c ∷ t)) i (length t1) start (length t2) (start + length w) segs
        (omega arith) eq1 eq2
      ∙ ap (λ n. parse fuel path (length t2) (start + length w) (take_segment path start n segs))
          len in
    (
      ap (map (slice path)) step
          ∙ found
          ∙ ap (walk_all (names t2)) (take_segment_lem path start w segs rw1 (omega arith))
          ∙ sym (walk_all-names w t2 (map (slice path) segs) plain ends)
          ∙ ap (λ l. walk_all (names l) (map (slice path) segs)) (sym split)
          ∙ ap (λ l. walk_all l (map (slice path) segs)) (sym same),
      rw step (
          Stacked-mono (start + length w + length t2 + 1) (i + length (c ∷ t) + 1)
            (parse fuel path (length t2) (start + length w) segs1) (omega arith) stacked),
    )
