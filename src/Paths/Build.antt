-- ===== src/Paths/Build.antt =====
-- The second loop of `vfs_normalize_path` writes the segments one behind another, in place.
use punix.Base.{
  ℕ, ◌+◌, ◌<◌, ◌≤◌, ◌≡◌, refl, ◌∙◌, arith, false, some, List, [], ◌∷◌, map, length, length-append,
  leb, update, update_self, update_ne,
}
use punix.Buffer.{
  Buf, bytes, copy, Reads, Reads-cong, Reads-append, Reads-copy, bytes-cong, length-bytes,
  AgreeFrom, AgreeBelow, copy_below, copy_from,
}
use punix.Paths.{Segment, place_segment, build, reverse_onto}
use punix.Paths.Names.{joined}
use punix.Paths.Parse.{slice, Stacked}

-- Segments in their order, from `lo` on and up to `hi`, with a character between two.
abbrev pub Ordered : ℕ → ℕ → List Segment → Type 0
Ordered hi lo [] = Unit
Ordered hi lo ((start, len) ∷ segs) =
    (lo ≤ start) × (start + len ≤ hi) × Ordered hi (start + len + 1) segs

pub Ordered-mono :
    (hi a b : ℕ) (segs : List Segment) → a ≤ b → Ordered hi b segs → Ordered hi a segs
Ordered-mono hi a b [] h o = tt
Ordered-mono hi a b ((start, len) ∷ segs) h o = (omega (arith, o.0), o.1, o.2)

pub Ordered-reverse_onto :
    (hi b : ℕ) (segs acc : List Segment)
    → b ≤ hi + 1
    → Stacked b segs
    → Ordered hi b acc
    → Ordered hi 1 (reverse_onto segs acc)
Ordered-reverse_onto hi b [] acc h s o = Ordered-mono hi 1 b acc s o
Ordered-reverse_onto hi b ((start, len) ∷ segs) acc h s o =
    Ordered-reverse_onto hi start segs ((start, len) ∷ acc) (omega (arith, s.0)) s.1
      (omega arith, omega (arith, s.0), Ordered-mono hi (start + len + 1) b acc s.0 o)

place_segment-fits :
    (size : ℕ) (path : Buf) (pos start len : ℕ)
    → pos + len + 1 < size
    → place_segment size path pos (start, len) ≡ some (copy len path pos start, pos + len)
unfolding place_segment
place_segment-fits size path pos start len h =
    let room : leb size (pos + len + 1) ≡ false = ground arith in rw room refl

build-more :
    (size : ℕ) (path : Buf) (pos start len : ℕ) (next : Segment) (segs : List Segment)
    → pos + len + 1 < size
    → build size path pos ((start, len) ∷ next ∷ segs)
      ≡ build size (update (copy len path pos start) (pos + len) b'/') (pos + len + 1) (next ∷ segs)
unfolding build
build-more size path pos start len next segs h =
    let room : leb size (pos + len + 1) ≡ false = ground arith in
    rw (place_segment-fits size path pos start len h, build) (rw room refl)

build-last :
    (size : ℕ) (path : Buf) (pos start len : ℕ)
    → pos + len + 1 < size
    → build size path pos ((start, len) ∷ []) ≡ (copy len path pos start, pos + len)
unfolding build
build-last size path pos start len h = rw (place_segment-fits size path pos start len h, build) refl

-- The buffer and the end after the names of `segs`, read in `old`, are written to `pos`.
abbrev pub Built : Buf → Buf → ℕ → ℕ → List Segment → Buf × ℕ → Type 0
Built old path pos hi segs (p', end) =
    Reads p' pos (joined (map (slice old) segs))
    × (end ≡ pos + length (joined (map (slice old) segs)))
    × (end ≤ hi)
    × AgreeBelow pos path p'
    × AgreeFrom end path p'

copied :
    (old path : Buf) (pos start len : ℕ)
    → pos ≤ start
    → AgreeFrom pos old path
    → Reads (copy len path pos start) pos (bytes old start len)
copied old path pos start len h same =
    let e : bytes path start len ≡ bytes old start len =
      bytes-cong old path start len (λ j low high. same j (omega arith)) in
    rw (← e) (Reads-copy len path pos start h)

pub build_lem :
    (size hi : ℕ) (old path : Buf) (pos : ℕ) (seg : Segment) (segs : List Segment)
    → hi + 1 < size
    → AgreeFrom pos old path
    → Ordered hi pos (seg ∷ segs)
    → Built old path pos hi (seg ∷ segs) (build size path pos (seg ∷ segs))
build_lem size hi old path pos (start, len) [] room same o =
    let size_of : length (bytes old start len) ≡ len = length-bytes old start len in
    rw (build-last size path pos start len (omega (arith, o.0, o.1))) (
      copied old path pos start len o.0 same,
      omega (arith, size_of),
      omega (arith, o.0, o.1),
      copy_below len path pos start,
      copy_from len path pos start,
    )
build_lem size hi old path pos (start, len) (next ∷ segs) room same o =
    let size_of : length (bytes old start len) ≡ len = length-bytes old start len in
    let p1 = copy len path pos start in
    let p2 = update p1 (pos + len) b'/' in
    let r = build size p2 (pos + len + 1) (next ∷ segs) in
    let (reads, end, small, below, above) =
      build_lem size hi old p2 (pos + len + 1) next segs room
        (λ j h.
          update_ne p1 (pos + len) j _ (omega arith)
          ∙ copy_from len path pos start j (omega arith)
          ∙ same j (omega arith))
        (Ordered-mono hi (pos + len + 1) (start + len + 1) (next ∷ segs) (omega (arith, o.0))
          o.2) in
    let name : Reads r.0 pos (bytes old start len) =
      Reads-cong p1 r.0 pos (bytes old start len)
        (λ j low high.
          below j (omega (arith, size_of)) ∙ update_ne p1 (pos + len) j _ (omega (arith, size_of)))
        (copied old path pos start len o.0 same) in
    let slash : r.0 (pos + len) ≡ b'/' =
      below (pos + len) (omega arith) ∙ update_self p1 (pos + len) b'/' in
    rw (build-more size path pos start len next segs (omega (arith, o.0, o.1))) (
      Reads-append r.0 pos (bytes old start len) (b'/' ∷ joined (map (slice old) (next ∷ segs)))
          name (rw size_of (slash, reads)),
      omega (
        arith,
        end,
        size_of,
        length-append (bytes old start len) (b'/' ∷ joined (map (slice old) (next ∷ segs))),
      ),
      small,
      λ j h.
          below j (omega arith)
          ∙ update_ne p1 (pos + len) j _ (omega arith)
          ∙ copy_below len path pos start j h,
      λ j h.
          above j h
          ∙ update_ne p1 (pos + len) j _ (omega (arith, end))
          ∙ copy_from len path pos start j (omega (arith, end)),
    )
