-- ===== src/Devices/Table.antt =====
-- `dev_lookup` of fs/dev_fs.c finds the first device of a name.
use punix.Base.{
  ℕ, zero, suc, ◌+◌, ◌<◌, ◌≤◌, ◌≡◌, ◌≢◌, refl, sym, ap, subst, ◌∙◌, arith, Bool, true, false,
  Option, none, some, List, if◌then◌else◌, if-true, if-false, ◌>>=◌, Bool-cases, ◌⊎◌, inl, inr,
  ℕ_discrete,
}
use punix.Base.Int.{ℤ, pos, negsuc}
use punix.Buffer.{bytes}
use punix.Kutils.Strings.{strcmp}
use punix.Kutils.Strings.Text.{IsText, cstr}
use punix.Kutils.Strings.Compare.{Lex, IsNeg, IsPos, Orders, same, below, above, strcmp_lem}
use punix.Paths.Normal.{bytes-cstr}
use punix.Vfs.Prefix.{Lex-irrefl}
use punix.Devices.{Dev, Devices, max_devices, name_size, same_name, lookup_loop, dev_lookup}
use punix.Devices.Listed.{IsNamed, WellNamed}

same_name-apart : (z : ℤ) → IsNeg z ⊎ IsPos z → same_name (some z) ≡ some false
same_name-apart (pos zero) (inl h) = absurd h
same_name-apart (pos zero) (inr h) = absurd (omega arith)
same_name-apart (pos (suc n)) h = refl
same_name-apart (negsuc n) h = refl

-- The test decides whether two texts are the same.
abbrev Decides : Option Bool → List ℕ → List ℕ → Type 0
Decides r s t = ((r ≡ some true) × (s ≡ t)) ⊎ ((r ≡ some false) × (s ≢ t))

same_name-Orders : (z : ℤ) (s t : List ℕ) → Orders z s t → Decides (same_name (some z)) s t
same_name-Orders z s t (same e p) = inl (ap (λ x. same_name (some x)) e, p)
same_name-Orders z s t (below neg lex) =
    inr (same_name-apart z (inl neg), λ e. Lex-irrefl t (subst (λ l. Lex l t) e lex))
same_name-Orders z s t (above p lex) =
    inr (same_name-apart z (inr p), λ e. Lex-irrefl t (subst (λ l. Lex t l) e lex))

-- The device is the first active one of the name from `k` on, or there is none.
abbrev pub Found : (ℕ → Dev) → (ℕ → List ℕ) → List ℕ → ℕ → Option (Option ℕ) → Type 0
Found devices names t k r =
    ((r ≡ some none)
      × ((j : ℕ) → k ≤ j → j < max_devices → (devices j).active ≡ true → names j ≢ t))
    ⊎ ((i : ℕ) × (r ≡ some (some i))
        × (k ≤ i)
        × (i < max_devices)
        × ((devices i).active ≡ true)
        × (names i ≡ t)
        × ((j : ℕ) → k ≤ j → j < i → (devices j).active ≡ true → names j ≢ t))

module _ (devices : ℕ → Dev) (names : ℕ → List ℕ) (t rest : List ℕ) where
  after :
      (k : ℕ)
      → ((devices k).active ≡ true → names k ≢ t)
      → (last : ℕ) → ((j : ℕ) → k + 1 ≤ j → j < last → (devices j).active ≡ true → names j ≢ t)
      → (j : ℕ) → k ≤ j
      → j < last
      → (devices j).active ≡ true
      → names j ≢ t
  after k ne last others j low high = elim (ℕ_discrete j k) [
    | yes e ↦ rw e ne
    | no later ↦ others j (omega arith) high
  ]

  Found-next :
      (k : ℕ) (r : Option (Option ℕ))
      → ((devices k).active ≡ true → names k ≢ t)
      → Found devices names t (k + 1) r
      → Found devices names t k r
  Found-next k r ne (inl (e, all)) = inl (e, after k ne max_devices all)
  Found-next k r ne (inr (i, e, low, high, on, is, before)) =
      inr (i, e, omega arith, high, on, is, after k ne i before)

  lookup_loop-off :
      (left k : ℕ)
      → (devices k).active ≡ false
      → lookup_loop (suc left) k devices (cstr t rest)
        ≡ lookup_loop left (k + 1) devices (cstr t rest)
  unfolding lookup_loop
  lookup_loop-off left k off = if-false (devices k).active _ _ off

  lookup_loop-on :
      (left k : ℕ) (b : Bool)
      → (devices k).active ≡ true
      → same_name (strcmp (bytes (devices k).name 0 name_size) (cstr t rest)) ≡ some b
      → lookup_loop (suc left) k devices (cstr t rest)
        ≡ (if b then some (some k) else lookup_loop left (k + 1) devices (cstr t rest))
  unfolding lookup_loop
  lookup_loop-on left k b on tested =
      if-true (devices k).active _ _ on
      ∙ ap
          (λ o. o >>= (λ same.
            if same then some (some k) else lookup_loop left (k + 1) devices (cstr t rest)))
          tested

  test_lem :
      (k : ℕ)
      → IsNamed (devices k) (names k)
      → IsText t
      → Decides (same_name (strcmp (bytes (devices k).name 0 name_size) (cstr t rest))) (names k) t
  test_lem k (text_k, holds, short) text =
      let (pad, eq) = bytes-cstr (devices k).name (names k) 0 name_size holds short in
      let (z, compared, orders) = strcmp_lem (names k) t pad rest text_k text in
      subst (λ o. Decides (same_name o) (names k) t)
        (sym (ap (λ l. strcmp l (cstr t rest)) eq ∙ compared))
        (same_name-Orders z (names k) t orders)

  lookup_loop_lem :
      (left k : ℕ)
      → WellNamed devices names
      → IsText t
      → k + left ≡ max_devices
      → Found devices names t k (lookup_loop left k devices (cstr t rest))
  unfolding lookup_loop
  lookup_loop_lem zero k well text e = inl (refl, λ j low high. absurd (omega arith))
  lookup_loop_lem (suc left) k well text e = elim (Bool-cases (devices k).active) [
    | inr off ↦
        subst (Found devices names t k) (sym (lookup_loop-off left k off)) (
          Found-next k _ (λ on. absurd (cc)) (lookup_loop_lem left (k + 1) well text (omega arith)))
    | inl on ↦ elim (test_lem k (well k (omega arith) on) text) [
      | inl (eq, is) ↦
          subst (Found devices names t k) (sym (lookup_loop-on left k true on eq))
            (inr (k, refl, omega arith, omega arith, on, is, λ j low high. absurd (omega arith)))
      | inr (eq, ne) ↦
          subst (Found devices names t k) (sym (lookup_loop-on left k false on eq))
            (Found-next k _ (λ a. ne) (lookup_loop_lem left (k + 1) well text (omega arith)))
    ]
  ]

-- `dev_lookup` finds the first active device of the name, and null if no active device has it. A null
-- name is found nowhere. Active devices have names that fit.
pub dev_lookup_lem :
    (d : Devices) (names : ℕ → List ℕ) (t rest : List ℕ)
    → WellNamed d.devices names
    → IsText t
    → Found d.devices names t 0 (dev_lookup d (some (cstr t rest)))
      × (dev_lookup d none ≡ some none)
unfolding dev_lookup
dev_lookup_lem d names t rest well text =
    (lookup_loop_lem d.devices names t rest max_devices 0 well text (omega arith), refl)
