-- ===== src/Devices/Register.antt =====
-- `dev_register` of fs/dev_fs.c, and that `dev_lookup` finds the new device.
use punix.Base.{
  ℕ, zero, suc, ◌+◌, ◌<◌, ◌≤◌, ◌≡◌, ◌≢◌, refl, sym, ap, subst, ◌∙◌, arith, true, false, Option,
  some, List, ◌∷◌, length, leb, if-true, if-false, ◌>>=◌, Bool-cases, ◌⊎◌, inl, inr, ℕ_discrete,
  leb→le, update, update_self, update_ne,
}
use punix.Base.Int.{ℤ, pos, negsuc}
use punix.Kutils.Strings.Text.{IsText, cstr}
use punix.Paths.{is_slash}
use punix.Paths.Join.{copy_string_lem}
use punix.Devices.{
  Dev, DevOps, Devices, max_devices, name_size, register_loop, dev_register, dev_lookup,
}
use punix.Devices.Listed.{IsNamed, WellNamed}
use punix.Devices.Table.{Found, dev_lookup_lem}

-- What the loop from slot `k` on leaves: no slot was free, or the first free one is taken.
abbrev pub Registered : Devices → ℕ → List ℕ → DevOps → Option ℕ → Option (ℤ × Devices) → Type 0
Registered d k t ops own r =
    ((r ≡ some (negsuc 0, d))
      × ((max_devices ≤ d.device_count)
          ⊎ ((j : ℕ) → k ≤ j → j < max_devices → (d.devices j).active ≡ true)))
    ⊎ ((i : ℕ) × (dev : Dev) × (k ≤ i)
        × (i < max_devices)
        × ((d.devices i).active ≡ false)
        × IsNamed dev t
        × (dev.ops ≡ some ops)
        × (dev.driver_data ≡ own)
        × (dev.active ≡ true)
        × (r
            ≡ some (
              pos 0,
              record { devices = update d.devices i dev; device_count = d.device_count + 1 },
            )))

module _ (d : Devices) (t rest : List ℕ) (ops : DevOps) (own : Option ℕ) (text : IsText t)
    (short : length t < name_size) where
  later :
      (k : ℕ) (r : Option (ℤ × Devices))
      → (d.devices k).active ≡ true
      → Registered d (k + 1) t ops own r
      → Registered d k t ops own r
  later k r used (inl (e, inl full)) = inl (e, inl full)
  later k r used (inl (e, inr all)) = inl (
    e,
    inr (λ j low high. elim (ℕ_discrete j k) [
      | yes same ↦ ap (λ x. (d.devices x).active) same ∙ used
      | no ne ↦ all j (omega arith) high
    ]),
  )
  later k r used (inr (i, dev, low, high, free, named, eo, ed, on, e)) =
      inr (i, dev, omega arith, high, free, named, eo, ed, on, e)

  register_loop_lem :
      (left k : ℕ)
      → k + left ≡ max_devices
      → Registered d k t ops own (register_loop left k d (cstr t rest) ops own)
  unfolding register_loop
  register_loop_lem zero k e = inl (refl, inr (λ j low high. absurd (omega arith)))
  register_loop_lem (suc left) k e = elim (Bool-cases (d.devices k).active) [
    | inl used ↦ later k _ used (
        subst (Registered d (k + 1) t ops own) (sym (if-true (d.devices k).active _ _ used))
          (register_loop_lem left (k + 1) (omega arith)))
    | inr free ↦
        let (name, copied, holds, below) =
          copy_string_lem (d.devices k).name name_size 0 t rest text (omega arith) in
        inr (
          k,
          record { name = name; ops = some ops; driver_data = own; active = true },
          omega arith,
          omega arith,
          free,
          (text, holds, short),
          refl,
          refl,
          refl,
          if-false (d.devices k).active _ _ free
              ∙ ap
                  (λ o. o >>= (λ new. some (
                    pos 0,
                    record {
                      devices =
                          update d.devices k (record {
                            name = new;
                            ops = some ops;
                            driver_data = own;
                            active = true;
                          });
                      device_count = d.device_count + 1;
                    },
                  )))
                  copied,
        )
  ]

WellNamed-update :
    (devices : ℕ → Dev) (names : ℕ → List ℕ) (i : ℕ) (dev : Dev) (t : List ℕ)
    → WellNamed devices names
    → IsNamed dev t
    → WellNamed (update devices i dev) (update names i t)
WellNamed-update devices names i dev t well is j h on = elim (ℕ_discrete j i) [
  | yes e ↦
      subst (λ x. IsNamed (update devices i dev x) (update names i t x)) (sym e)
        (rw (update_self devices i dev, update_self names i t) is)
  | no ne ↦
      let old = update_ne devices i j dev ne in
      rw (old, update_ne names i j t ne) (well j h (rw old at on))
]

-- What `dev_register` leaves: a failure changes nothing, a new device is found under its name.
abbrev pub RegisterDone :
    Devices → List ℕ → List ℕ → DevOps → Option ℕ → Option (ℤ × Devices) → Type 0
RegisterDone d t rest ops own r =
    ((r ≡ some (negsuc 0, d))
      × ((max_devices ≤ d.device_count)
          ⊎ ((j : ℕ) → j < max_devices → (d.devices j).active ≡ true)))
    ⊎ ((i : ℕ) × (d' : Devices) × (r ≡ some (pos 0, d'))
        × ((d.devices i).active ≡ false)
        × (d'.device_count ≡ d.device_count + 1)
        × ((d'.devices i).ops ≡ some ops)
        × ((d'.devices i).driver_data ≡ own)
        × ((j : ℕ) → j ≢ i → d'.devices j ≡ d.devices j)
        × (dev_lookup d' (some (cstr t rest)) ≡ some (some i)))

-- The only active device of a name is the one that is found.
Found-only :
    (devices : ℕ → Dev) (names : ℕ → List ℕ) (t : List ℕ) (i : ℕ) (r : Option (Option ℕ))
    → i < max_devices
    → (devices i).active ≡ true
    → names i ≡ t
    → ((j : ℕ) → j < max_devices → j ≢ i → (devices j).active ≡ true → names j ≢ t)
    → Found devices names t 0 r
    → r ≡ some (some i)
Found-only devices names t i r h on is alone (inl (e, all)) = absurd (all i (omega arith) h on is)
Found-only devices names t i r h on is alone (inr (k, e, low, high, on_k, is_k, before)) =
    elim (ℕ_discrete k i) [
      | yes same ↦ e ∙ ap (λ x. some (some x)) same
      | no ne ↦ absurd (alone k high ne on_k is_k)
    ]

register-done :
    (d : Devices) (names : ℕ → List ℕ) (t rest : List ℕ) (ops : DevOps) (own : Option ℕ)
    (r : Option (ℤ × Devices))
    → WellNamed d.devices names
    → IsText t
    → ((j : ℕ) → j < max_devices → (d.devices j).active ≡ true → names j ≢ t)
    → Registered d 0 t ops own r
    → RegisterDone d t rest ops own r
register-done d names t rest ops own r well text new (inl (e, inl full)) = inl (e, inl full)
register-done d names t rest ops own r well text new (inl (e, inr all)) =
    inl (e, inr (λ j h. all j (omega arith) h))
register-done d names t rest ops own r well text new
      (inr (i, dev, low, high, free, named, eo, ed, on, e)) =
    let d' : Devices = record {
      devices = update d.devices i dev;
      device_count = d.device_count + 1;
    } in
    let here = update_self d.devices i dev in
    let names' = update names i t in
    let found =
      dev_lookup_lem d' names' t rest (WellNamed-update d.devices names i dev t well named) text in
    inr (
      i,
      d',
      e,
      free,
      refl,
      ap (λ x. x.ops) here ∙ eo,
      ap (λ x. x.driver_data) here ∙ ed,
      λ j ne. update_ne d.devices i j dev ne,
      Found-only d'.devices names' t i (dev_lookup d' (some (cstr t rest))) high
          (ap (λ x. x.active) here ∙ on) (update_self names i t)
          (λ j h ne a is.
            new j h (ap (λ x. x.active) (sym (update_ne d.devices i j dev ne)) ∙ a)
              (sym (update_ne names i j t ne) ∙ is))
          found.0,
    )

-- `dev_register` either fails and changes nothing, and then the count of devices is at its limit or
-- every slot is in use; or it takes a free slot, changes no other, and `dev_lookup` finds the new
-- device under its name. The name is a text that fits, does not start with a slash and is the name of
-- no device yet; active devices have names that fit.
pub dev_register-dev_lookup :
    (d : Devices) (names : ℕ → List ℕ) (c : ℕ) (t rest : List ℕ) (ops : DevOps) (own : Option ℕ)
    → WellNamed d.devices names
    → IsText (c ∷ t)
    → length (c ∷ t) < name_size
    → is_slash c ≡ false
    → ((j : ℕ) → j < max_devices → (d.devices j).active ≡ true → names j ≢ (c ∷ t))
    → RegisterDone d (c ∷ t) rest ops own (dev_register d (some (cstr (c ∷ t) rest)) (some ops) own)
unfolding dev_register
dev_register-dev_lookup d names c t rest ops own well text short plain new =
    elim (Bool-cases (leb max_devices d.device_count)) [
      | inl full ↦ inl (
        if-true (leb max_devices d.device_count) _ _ full,
        inl (leb→le max_devices d.device_count full),
      )
      | inr room ↦
          subst (RegisterDone d (c ∷ t) rest ops own)
            (sym (
              if-false (leb max_devices d.device_count) _ _ room ∙ if-false (is_slash c) _ _ plain))
            (register-done d names (c ∷ t) rest ops own _ well text new
              (register_loop_lem d (c ∷ t) rest ops own text short max_devices 0 (omega arith)))
    ]
