-- ===== src/Devices/Tests.antt =====
-- The theorems on devices, at a table with the device `a`.
use punix.Base.{ap, get_or, update, ℕ, ◌≡◌, ◌≢◌, refl, arith, List, [], ◌∷◌, some, none, ◌==◌}
use punix.Buffer.{Buf, store}
use punix.Drivers.{Dirents}
use punix.Kutils.Strings.Text.{IsText, cstr}
use punix.Devices.{DevOps, Devices, dev_register}
use punix.Devices.Listed.{WellNamed}
use punix.Devices.Register.{RegisterDone, dev_register-dev_lookup}

abbrev name_a : List ℕ
name_a = b'a' ∷ []

abbrev name_b : List ℕ
name_b = b'b' ∷ []

abbrev zeros : Buf
zeros = λ i. 0

abbrev some_ops : DevOps
some_ops = record { open_op = none; close = none; read = some 1; write = some 2 }

abbrev one_device : Devices
one_device = record {
  devices = λ i. record {
    name = store zeros 0 (cstr name_a []);
    ops = some some_ops;
    driver_data = none;
    active = i == 0;
  };
  device_count = 1;
}

one_device-WellNamed : WellNamed one_device.devices (λ i. name_a)
unfolding update
one_device-WellNamed i h on = ((omega arith, tt), ((refl, tt), refl), omega arith)

name_b-IsText : IsText name_b
name_b-IsText = (omega arith, tt)

name_a-name_b : name_a ≢ name_b
name_a-name_b e = let first : 97 ≡ 98 = ap (λ l. get_or l 0 0) e in absurd (omega (arith, first))

abbrev no_entry : Dirents
no_entry = λ i. record { d_ino = 0; d_reclen = 0; d_type = 0; d_name = zeros }

dev_register-dev_lookup_example :
    RegisterDone one_device name_b [] some_ops
      (some 7)
      (dev_register one_device (some (cstr name_b [])) (some some_ops) (some 7))
dev_register-dev_lookup_example =
    dev_register-dev_lookup one_device (λ i. name_a) b'b' [] [] some_ops (some 7)
      one_device-WellNamed name_b-IsText (omega arith) refl (λ j h on. name_a-name_b)
