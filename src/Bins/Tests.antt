-- ===== src/Bins/Tests.antt =====
-- The theorem on programs, in the middle of one of three bytes.
use punix.Base.{◌-◌, refl, [], ◌∷◌, some, min, length}
use punix.Drivers.{OpenFile, zero_file}
use punix.Bins.{EmbeddedBin, bin_read}
use punix.Bins.Reading.{ReadBin, bin_read_lem}

abbrev three : EmbeddedBin
three = record { name = b'l' ∷ 0 ∷ []; image = 7 ∷ 8 ∷ 9 ∷ [] }

abbrev half_read : OpenFile
half_read = record zero_file { driver_data = some 0; offset = 1 }

bin_read_lem_example :
    ReadBin three half_read
      (λ i. 0)
      (min 5 (length three.image - half_read.offset))
      (bin_read (three ∷ []) half_read (λ i. 0) 5)
bin_read_lem_example = bin_read_lem (three ∷ []) 0 three half_read (λ i. 0) 5 refl refl
