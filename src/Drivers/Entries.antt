-- ===== src/Drivers/Entries.antt =====
-- `fs_add_entry` of fs/fs_util.c one call after the other: the first entries of a list that fit.
use punix.Base.{
  ℕ, zero, suc, ◌+◌, ◌-◌, ◌<◌, ◌≤◌, ◌≡◌, refl, sym, ap, subst, ◌∙◌, arith, true, false, Option,
  some, List, [], ◌∷◌, ◌++◌, All, length, length-append, take, drop, leb, if◌then◌else◌, if-true,
  if-false, ◌>>=◌, Bool-cases, inl, inr, leb→le, leb→lt, dec_lt, min, update, update_self,
  update_ne,
}
use punix.Buffer.{Buf, bytes, store, Holds, Reads-cong, Reads-store, length-bytes}
use punix.Drivers.{Dirent, Dirents, add_entry, put_name, dirent_size, max_filename_len}
use punix.Kutils.Strings.{memcpy}
use punix.Kutils.Strings.Text.{IsText, cstr}
use punix.Kutils.Strings.Copies.{strlen_lem, memcpy_lem}
use punix.Paths.Join.{Reads-left, take-all}

-- The number, the type and the name of an entry.
pub record Entry : Type 0 where
  pub number : ℕ
  pub kind : ℕ
  pub label : List ℕ

-- The entry of the buffer is this one; a name that is too long is cut.
pub record IsEntry (d : Dirent) (e : Entry) : Type 0 where
  pub number : d.d_ino ≡ e.number
  pub kind : d.d_type ≡ e.kind
  pub size : d.d_reclen ≡ dirent_size
  pub label : Holds d.d_name 0 (take (max_filename_len - 1) e.label)

take-append_left : (n : ℕ) (s t : List ℕ) → n ≤ length s → take n (s ++ t) ≡ take n s
take-append_left zero s t h = refl
take-append_left (suc n) [] t h = absurd (omega arith)
take-append_left (suc n) (c ∷ s) t h = ap (λ l. c ∷ l) (take-append_left n s t (omega arith))

pub length-take : (n : ℕ) (t : List ℕ) → n ≤ length t → length (take n t) ≡ n
length-take zero t h = refl
length-take (suc n) [] h = absurd (omega arith)
length-take (suc n) (c ∷ t) h = ap suc (length-take n t (omega arith))

-- How much of a name is copied.
abbrev kept : ℕ → ℕ
kept full = if leb max_filename_len full then max_filename_len - 1 else full

cut :
    (t : List ℕ)
    → (kept (length t) ≤ length t)
      × (kept (length t) < max_filename_len)
      × (take (max_filename_len - 1) t ≡ take (kept (length t)) t)
cut t = elim (Bool-cases (leb max_filename_len (length t))) [
  | inl long ↦ rw long (omega (arith, leb→le max_filename_len (length t) long), omega arith, refl)
  | inr short ↦
      let low = leb→lt max_filename_len (length t) short in
      rw short (
        omega arith,
        omega (arith, low),
        take-all (max_filename_len - 1) t (omega (arith, low))
            ∙ sym (take-all (length t) t (omega arith)),
      )
]

put_name_lem :
    (d_name : Buf) (t rest : List ℕ)
    → IsText t
    → (out : Buf) × (put_name d_name (some (cstr t rest)) ≡ some out)
      × Holds out 0 (take (max_filename_len - 1) t)
unfolding put_name
put_name_lem d_name t rest text =
    let n = kept (length t) in
    let (within, low, same) = cut t in
    let dest = bytes d_name 0 max_filename_len in
    let size = length-bytes d_name 0 max_filename_len in
    let room : n ≤ length (cstr t rest) = omega (arith, within, length-append t (0 ∷ rest)) in
    let copied : memcpy dest (cstr t rest) n ≡ some (take n t ++ drop n dest) =
      memcpy_lem n dest (cstr t rest) (omega (arith, low, size)) room
      ∙ ap (λ l. some (l ++ drop n dest)) (take-append_left n t (0 ∷ rest) within) in
    let p = store d_name 0 (take n t ++ drop n dest) in
    let len : length (take n t) ≡ n = length-take n t within in
    (
      update p n 0,
      ap
            (λ o. o >>= (λ full.
              memcpy dest (cstr t rest) (kept full)
              >>= (λ out. some (update (store d_name 0 out) (kept full) 0))))
            (strlen_lem t rest text)
          ∙ ap (λ o. o >>= (λ out. some (update (store d_name 0 out) n 0))) copied,
      subst (λ l. Holds (update p n 0) 0 l) (sym same)
          (
            Reads-cong p (update p n 0) 0 (take n t)
                (λ j above below. update_ne p n j 0 (omega (arith, len, below)))
                (Reads-left p 0 (take n t) (drop n dest)
                  (Reads-store d_name 0 (take n t ++ drop n dest))),
            let e : 0 + length (take n t) ≡ n = omega (arith, len) in
                ap (update p n 0) e ∙ update_self p n 0,
          ),
    )

-- `add_entry` for each entry of a list, with what stands behind the terminators of the names.
abbrev pub add_all : ℕ → List (Entry × List ℕ) → Dirents × ℕ → Option (Dirents × ℕ)
add_all max [] state = some state
add_all max ((e, rest) ∷ es) (buf, idx) =
    add_entry buf max idx e.number e.kind (some (cstr e.label rest))
    >>= (λ added. add_all max es added.1)

-- The entries of the list from `i` on, as far as there is room.
abbrev pub Lists : Dirents → ℕ → ℕ → List (Entry × List ℕ) → Type 0
Lists buf max i [] = Unit
Lists buf max i (e ∷ es) = (i < max → IsEntry (buf i) e.0) × Lists buf max (i + 1) es

add_entry-room :
    (buf : Dirents) (max idx : ℕ) (e : Entry) (rest : List ℕ)
    → IsText e.label
    → idx < max
    → (d : Dirent) × (add_entry buf max idx e.number e.kind (some (cstr e.label rest))
        ≡ some (true, (update buf idx d, idx + 1)))
      × IsEntry d e
unfolding add_entry
add_entry-room buf max idx e rest text room =
    let some_room : leb max idx ≡ false = ground arith in
    let (name, put, holds) = put_name_lem (buf idx).d_name e.label rest text in
    let d : Dirent = record {
      d_ino = e.number;
      d_reclen = dirent_size;
      d_type = e.kind;
      d_name = name;
    } in
    (
      d,
      if-false (leb max idx) _ _ some_room
          ∙ ap
              (λ o. o >>= (λ d_name. some (
                true,
                (
                  update buf idx (record {
                    d_ino = e.number;
                    d_reclen = dirent_size;
                    d_type = e.kind;
                    d_name = d_name;
                  }),
                  idx + 1,
                ),
              )))
              put,
      record { number = refl; kind = refl; size = refl; label = holds },
    )

pub add_entry-full :
    (buf : Dirents) (max idx ino kind : ℕ) (name : Option (List ℕ))
    → max ≤ idx
    → add_entry buf max idx ino kind name ≡ some (false, (buf, idx))
unfolding add_entry
add_entry-full buf max idx ino kind name full =
    let no_room : leb max idx ≡ true = ground arith in if-true (leb max idx) _ _ no_room

Lists-full : (buf : Dirents) (max i : ℕ) (es : List (Entry × List ℕ)) → max ≤ i → Lists buf max i es
Lists-full buf max i [] h = tt
Lists-full buf max i (e ∷ es) h =
    (λ low. absurd (omega arith), Lists-full buf max (i + 1) es (omega arith))

-- What a number of calls leaves: the entries that fit stand in the buffer, and the rest is as before.
abbrev pub Added : ℕ → List (Entry × List ℕ) → Dirents × ℕ → Dirents × ℕ → Type 0
Added max es (buf, idx) (buf', idx') =
    Lists buf' max idx es
    × (idx' ≡ min (idx + length es) max)
    × ((j : ℕ) → j < idx → buf' j ≡ buf j)
    × ((j : ℕ) → idx' ≤ j → buf' j ≡ buf j)

pub add_all_lem :
    (max : ℕ) (es : List (Entry × List ℕ)) (buf : Dirents) (idx : ℕ)
    → All (λ e. IsText e.0.label) es
    → idx ≤ max
    → (out : Dirents × ℕ) × (add_all max es (buf, idx) ≡ some out) × Added max es (buf, idx) out
add_all_lem max [] buf idx texts h = ((buf, idx), refl, (tt, omega arith, λ j k. refl, λ j k. refl))
add_all_lem max ((e, rest) ∷ es) buf idx (text, texts) h = elim (dec_lt idx max) [
  | yes room ↦
      let (d, eq, is) = add_entry-room buf max idx e rest text room in
      let (out, more, (lists, size, below, above)) =
        add_all_lem max es (update buf idx d) (idx + 1) texts (omega arith) in
      (
        out,
        ap (λ o. o >>= (λ added. add_all max es added.1)) eq ∙ more,
        (
          (
            λ k.
                subst (λ x. IsEntry x e) (sym (below idx (omega arith) ∙ update_self buf idx d)) is,
            lists,
          ),
          omega (arith, size),
          λ j k. below j (omega arith) ∙ update_ne buf idx j d (omega arith),
          λ j k. above j k ∙ update_ne buf idx j d (omega (arith, size, k)),
        ),
      )
  | no full ↦
      let (out, more, (lists, size, below, above)) = add_all_lem max es buf idx texts h in
      (
        out,
        ap (λ o. o >>= (λ added. add_all max es added.1))
              (add_entry-full buf max idx e.number e.kind (some (cstr e.label rest)) (omega arith))
            ∙ more,
        (
          Lists-full out.0 max idx ((e, rest) ∷ es) (omega arith),
          omega (arith, size),
          below,
          above,
        ),
      )
]

pub add_all-full :
    (max : ℕ) (es : List (Entry × List ℕ)) (buf : Dirents) (idx : ℕ)
    → max ≤ idx
    → add_all max es (buf, idx) ≡ some (buf, idx)
add_all-full max [] buf idx h = refl
add_all-full max ((e, rest) ∷ es) buf idx h =
    ap (λ o. o >>= (λ added. add_all max es added.1))
      (add_entry-full buf max idx e.number e.kind (some (cstr e.label rest)) h)
    ∙ add_all-full max es buf idx h
