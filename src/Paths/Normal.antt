-- ===== src/Paths/Normal.antt =====
-- An absolute path is replaced by its canonical form, in place and within its buffer.
use punix.Base.{
  ℕ, zero, suc, ◌+◌, ◌-◌, ◌<◌, ◌≤◌, ◌≡◌, refl, sym, ap, ap₂, subst, ◌∙◌, arith, true, false, some,
  List, [], ◌∷◌, map, length, leb, ltb, if◌then◌else◌, update, update_self, update_ne,
}
use punix.Buffer.{Buf, bytes, Holds, Reads-cong, AgreeFrom}
use punix.Kutils.Strings.{strlen}
use punix.Kutils.Strings.Text.{IsText, cstr}
use punix.Kutils.Strings.Copies.{strlen_lem}
use punix.Paths.{
  Segment, build, reverse_onto, root, terminate, rebuild, collapse, parse, max_segments,
}
use punix.Paths.Names.{joined, canonical, target, AtEnd}
use punix.Paths.Parse.{slice, Stacked, parse_lem}
use punix.Paths.Build.{Ordered, Ordered-reverse_onto, build_lem}

map-reverse_onto :
    {A B : Type 0} (f : A → B) (xs acc : List A)
    → map f (reverse_onto xs acc) ≡ reverse_onto (map f xs) (map f acc)
map-reverse_onto f [] acc = refl
map-reverse_onto f (x ∷ xs) acc = map-reverse_onto f xs (x ∷ acc)

-- The first element of a list that is turned round.
reverse_onto-cons :
    {A : Type 0} (x : A) (xs acc : List A)
    → (y : A) × (ys : List A) × (reverse_onto (x ∷ xs) acc ≡ y ∷ ys)
reverse_onto-cons x [] acc = (x, acc, refl)
reverse_onto-cons x (z ∷ xs) acc = reverse_onto-cons z xs (x ∷ acc)

pub bytes-cstr :
    (path : Buf) (t : List ℕ) (i n : ℕ)
    → Holds path i t
    → length t < n
    → (rest : List ℕ) × (bytes path i n ≡ cstr t rest)
bytes-cstr path t i zero h room = absurd (omega arith)
bytes-cstr path [] i (suc n) h room =
    let e : i + 0 ≡ i = omega arith in
    (bytes path (i + 1) n, ap (λ c. c ∷ bytes path (i + 1) n) (ap path (sym e) ∙ h.1))
bytes-cstr path (c ∷ t) i (suc n) h room =
    let e : i + suc (length t) ≡ i + 1 + length t = omega arith in
    let (rest, eq) = bytes-cstr path t (i + 1) n (h.0.1, rw e at (h.1)) (omega arith) in
    (rest, ap₂ (λ x l. x ∷ l) h.0.0 eq)

-- The length of a string that stands in a buffer.
pub strlen-bytes :
    (path : Buf) (t : List ℕ) (i n : ℕ)
    → IsText t
    → Holds path i t
    → length t < n
    → strlen (bytes path i n) ≡ some (length t)
strlen-bytes path t i n text h room =
    let (rest, eq) = bytes-cstr path t i n h room in ap strlen eq ∙ strlen_lem t rest text

-- The buffer `p` has the canonical path of the segments `order`, not longer than the old path, and
-- is the old one behind that.
abbrev pub Rebuilt : ℕ → Buf → List Segment → Buf → Type 0
Rebuilt hi old order p =
    Holds p 0 (b'/' ∷ joined (map (slice old) order))
    × (length (b'/' ∷ joined (map (slice old) order)) ≤ hi)
    × AgreeFrom (hi + 1) old p

pub rebuild-nil :
    (size hi : ℕ) (old : Buf) → 0 < hi → hi + 1 < size → Rebuilt hi old [] (root old size)
rebuild-nil size hi old pos room =
    let wide : ltb 1 size ≡ true = ground arith in
    let slashed = update old 0 b'/' in
    rw wide (
      (
        (update_ne slashed 1 0 0 (omega arith) ∙ update_self old 0 b'/', tt),
        update_self slashed 1 0,
      ),
      omega arith,
      λ j h. update_ne slashed 1 j 0 (omega arith) ∙ update_ne old 0 j b'/' (omega arith),
    )

rebuild-order :
    (size hi : ℕ) (old : Buf) (seg : Segment) (segs : List Segment)
    → hi + 1 < size
    → Ordered hi 1 (seg ∷ segs)
    → Rebuilt hi old (seg ∷ segs) (terminate size (build size (update old 0 b'/') 1 (seg ∷ segs)))
rebuild-order size hi old seg segs room order =
    let slashed = update old 0 b'/' in
    let r = build size slashed 1 (seg ∷ segs) in
    let (reads, end, small, below, above) =
      build_lem size hi old slashed 1 seg segs room (λ j h. update_ne old 0 j b'/' (omega arith))
        order in
    let fits : leb size r.1 ≡ false = ground (arith, small) in
    let text = joined (map (slice old) (seg ∷ segs)) in
    let at : 0 + suc (length text) ≡ r.1 = omega (arith, end) in
    let done : Rebuilt hi old (seg ∷ segs) (update r.0 r.1 0) = (
      (
        (
          update_ne r.0 r.1 0 0 (omega (arith, end))
              ∙ below 0 (omega arith)
              ∙ update_self old 0 b'/',
          Reads-cong r.0 (update r.0 r.1 0) 1 text
              (λ j low high. update_ne r.0 r.1 j 0 (omega (arith, end))) reads,
        ),
        ap (update r.0 r.1 0) at ∙ update_self r.0 r.1 0,
      ),
      omega (arith, end, small),
      λ j h.
          update_ne r.0 r.1 j 0 (omega (arith, small))
          ∙ above j (omega (arith, small))
          ∙ update_ne old 0 j b'/' (omega arith),
    ) in
    subst (λ i. Rebuilt hi old (seg ∷ segs) (update r.0 i 0))
      (ap (λ b. if b then size - 1 else r.1) (sym fits)) done

rebuild_lem :
    (size hi : ℕ) (old : Buf) (segs : List Segment)
    → 0 < hi
    → hi + 1 < size
    → Stacked (hi + 1) segs
    → Rebuilt hi old (reverse_onto segs []) (rebuild size old segs)
unfolding rebuild
rebuild_lem size hi old [] pos room s = rebuild-nil size hi old pos room
rebuild_lem size hi old (seg ∷ segs) pos room s =
    let (first, others, turned) = reverse_onto-cons seg segs [] in
    let order = Ordered-reverse_onto hi (hi + 1) (seg ∷ segs) [] (omega arith) s tt in
    subst (λ o. Rebuilt hi old o (terminate size (build size (update old 0 b'/') 1 o))) (sym turned)
      (rebuild-order size hi old first others room (subst (Ordered hi 1) turned order))

-- An absolute path is replaced by its canonical form.
pub collapse_lem :
    (path : Buf) (size : ℕ) (t : List ℕ)
    → IsText t
    → AtEnd t
    → 0 < length t
    → Holds path 0 t
    → length t + 1 < size
    → length t ≤ max_segments
    → (p : Buf) × (collapse path size ≡ some p)
      × Holds p 0 (canonical t)
      × (length (canonical t) ≤ length t)
      × AgreeFrom (length t + 1) path p
unfolding collapse
collapse_lem path size t text ends pos h room few =
    let len = length t in
    let segs = parse len path len 0 [] in
    let (found, stacked) =
      parse_lem len path t 0 [] (omega arith) h.0 ends (omega arith) (omega arith) in
    let start : 0 + len + 1 ≡ len + 1 = omega arith in
    let same : map (slice path) (reverse_onto segs []) ≡ target t =
      map-reverse_onto (slice path) segs [] ∙ ap (λ l. reverse_onto l []) found in
    let (reads, small, above) =
      rebuild_lem size len path segs pos room (subst (λ b. Stacked b segs) start stacked) in
    (
      rebuild size path segs,
      rw (strlen-bytes path t 0 size text h (omega arith)) refl,
      subst (λ l. Holds (rebuild size path segs) 0 (b'/' ∷ joined l)) same reads,
      subst (λ l. length (b'/' ∷ joined l) ≤ len) same small,
      above,
    )
