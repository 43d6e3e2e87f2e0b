-- ===== src/Paths/Append.antt =====
-- The part of `vfs_resolve_path` that puts a name behind a directory.
use punix.Base.{
  ℕ, ◌+◌, ◌-◌, ◌<◌, ◌≡◌, refl, sym, ap, subst, ◌∙◌, ◌≢◌, arith, true, false, Option, some, List, [],
  ◌∷◌, ◌++◌, append_assoc, length, length-append, ltb, update, update_self, update_ne, ◌>>=◌,
  Bool-cases, inl, inr, ne→==, ==_iff,
}
use punix.Buffer.{Buf, bytes, Reads, Holds, Reads-cong, Reads-append}
use punix.Kutils.Strings.{strlen}
use punix.Kutils.Strings.Text.{IsText, cstr}
use punix.Paths.{normalize, is_slash, copy_string, append_path, max_segments, reverse_onto}
use punix.Paths.Names.{names, canonical, joined, walk_all}
use punix.Paths.Normal.{strlen-bytes}
use punix.Paths.Absolute.{normalize_lem}
use punix.Paths.Join.{names-join, names-slash_end, copy_string_lem, Reads-next}

pub canonical-names : (s t : List ℕ) → names s ≡ names t → canonical s ≡ canonical t
canonical-names s t e = ap (λ l. b'/' ∷ joined (reverse_onto (walk_all l []) [])) e

pub IsText-append : (s t : List ℕ) → IsText s → IsText t → IsText (s ++ t)
IsText-append [] t h k = k
IsText-append (c ∷ s) t h k = (h.0, IsText-append s t h.1 k)

-- The last character of a directory is a slash: the name follows it at once.
append-slash :
    (path : Buf) (size len : ℕ) (name : List ℕ)
    → strlen (bytes path 0 size) ≡ some len
    → len ≢ 0
    → is_slash (path (len - 1)) ≡ true
    → len + 1 < size
    → append_path path size name ≡ copy_string path size len name >>= (λ p. normalize p size)
unfolding append_path
append-slash path size len name found ne slash room =
    let fits : ltb len (size - 1) ≡ true = ground arith in
    rw found (rw (ne→== len 0 ne) (rw (slash, fits) (rw fits refl)))

abbrev slashed : Buf → ℕ → Buf
slashed path len = update (update path len b'/') (len + 1) 0

append-plain :
    (path : Buf) (size len : ℕ) (name : List ℕ)
    → strlen (bytes path 0 size) ≡ some len
    → len ≢ 0
    → is_slash (path (len - 1)) ≡ false
    → len + 2 < size
    → append_path path size name
      ≡ copy_string (slashed path len) size (len + 1) name >>= (λ p. normalize p size)
unfolding append_path
append-plain path size len name found ne slash room =
    let fits : ltb len (size - 1) ≡ true = ground arith in
    let fits1 : ltb (len + 1) (size - 1) ≡ true = ground arith in
    rw found (rw (ne→== len 0 ne) (rw (slash, fits) (rw fits1 refl)))

-- What both cases leave: the name stands behind the directory in the buffer.
abbrev pub Resolved : Option Buf → List ℕ → Type 0
Resolved o t = (p : Buf) × (o ≡ some p) × Holds p 0 (canonical t)

finish :
    (p : Buf) (size i : ℕ) (d n rest : List ℕ)
    → IsText d
    → IsText n
    → Reads p 0 d
    → length d ≡ i
    → i + length n + 2 < size
    → i + length n < max_segments
    → Resolved (copy_string p size i (cstr n rest) >>= (λ q. normalize q size)) (d ++ n)
finish p size i d n rest textd textn r e room few =
    let both = length-append d n in
    let (q, copied, holds, below) = copy_string_lem p size i n rest textn (omega arith) in
    let start : 0 + length d ≡ i = omega arith in
    let stop : 0 + length (d ++ n) ≡ i + length n = omega arith in
    let behind : Reads q (0 + length d) n = rw start holds.0 in
    let whole =
      Reads-append q 0 d n (Reads-cong p q 0 d (λ j low high. below j (omega arith)) r) behind in
    let (out, eq, reads, small, above) =
      normalize_lem q size (d ++ n) (IsText-append d n textd textn) (whole, ap q stop ∙ holds.1)
        (omega arith) (omega arith) in
    (out, ap (λ o. o >>= (λ b. normalize b size)) copied ∙ eq, reads)

-- A slash at the end of the directory stands for the one between the directory and the name.
names-slash_once :
    (d n : List ℕ) → names ((d ++ (b'/' ∷ [])) ++ n) ≡ names ((d ++ (b'/' ∷ [])) ++ (b'/' ∷ n))
names-slash_once d n =
    ap names (append_assoc d (b'/' ∷ []) n)
    ∙ names-join d n
    ∙ ap (λ l. l ++ names n) (sym (names-slash_end d))
    ∙ sym (names-join (d ++ (b'/' ∷ [])) n)

Reads-slashed :
    (p : Buf) (t : List ℕ) (len : ℕ)
    → Reads p 0 t
    → length t ≡ len
    → Reads (slashed p len) 0 (t ++ (b'/' ∷ []))
Reads-slashed p t len r e =
    let end : 0 + length t ≡ len = omega arith in
    Reads-append (slashed p len) 0 t (b'/' ∷ [])
      (Reads-cong p (slashed p len) 0 t
        (λ j low high.
          update_ne (update p len b'/') (len + 1) j 0 (omega arith)
          ∙ update_ne p len j b'/' (omega arith))
        r)
      (
        ap (slashed p len) end
            ∙ update_ne (update p len b'/') (len + 1) len 0 (omega arith)
            ∙ update_self p len b'/',
        tt,
      )

pub append_lem :
    (p : Buf) (size : ℕ) (d : List ℕ) (x : ℕ) (n rest : List ℕ)
    → IsText (d ++ (x ∷ []))
    → IsText n
    → Holds p 0 (d ++ (x ∷ []))
    → length d + length n + 4 < size
    → length d + length n + 2 < max_segments
    → Resolved (append_path p size (cstr n rest)) ((d ++ (x ∷ [])) ++ (b'/' ∷ n))
append_lem p size d x n rest textd textn h room few =
    let whole = d ++ (x ∷ []) in
    let len = length d + 1 in
    let both : length whole ≡ len = length-append d (x ∷ []) ∙ omega arith in
    let found : strlen (bytes p 0 size) ≡ some len =
      strlen-bytes p whole 0 size textd h (omega (arith, both)) ∙ ap some both in
    let first : len - 1 ≡ 0 + length d = omega arith in
    let last : p (len - 1) ≡ x = ap p first ∙ Reads-next p 0 d x [] h.0 in
    elim (Bool-cases (is_slash x)) [
      | inl q ↦
          let e : x ≡ b'/' = (==_iff x b'/').0 q in
          let same : names (whole ++ n) ≡ names (whole ++ (b'/' ∷ n)) =
            subst (λ y. names ((d ++ (y ∷ [])) ++ n) ≡ names ((d ++ (y ∷ [])) ++ (b'/' ∷ n)))
              (sym e) (names-slash_once d n) in
          let (out, eq, reads) =
            finish p size len whole n rest textd textn h.0 both (omega arith) (omega arith) in
          (
            out,
            append-slash p size len (cstr n rest) found (λ z. absurd (omega (arith, z)))
                  (ap is_slash last ∙ q) (omega arith)
                ∙ eq,
            subst (λ l. Holds out 0 l) (canonical-names (whole ++ n) (whole ++ (b'/' ∷ n)) same)
                reads,
          )
      | inr q ↦
          let (out, eq, reads) =
            finish (slashed p len) size (len + 1) (whole ++ (b'/' ∷ [])) n rest
              (IsText-append whole (b'/' ∷ []) textd (omega arith, tt)) textn
              (Reads-slashed p whole len h.0 both)
              (length-append whole (b'/' ∷ []) ∙ ap (λ l. l + 1) both) (omega arith)
              (omega arith) in
          (
            out,
            append-plain p size len (cstr n rest) found (λ z. absurd (omega (arith, z)))
                  (ap is_slash last ∙ q) (omega arith)
                ∙ eq,
            rw (append_assoc whole (b'/' ∷ []) n) at reads,
          )
    ]
