-- ===== src/Base/Store.antt =====
-- Arrays as functions, and the store of one element.
use Prim.Native.Nat.{ℕ}
use mathlib.Core.Path.{◌≡◌, refl}
use mathlib.Core.Logic.{◌≢◌}
use punix.Base.Tests.{◌==◌, if◌then◌else◌, eq→==, ne→==}

-- Assignment to an element of an array.
unfoldable pub update {ℓ} : {A : Type ℓ} → (ℕ → A) → ℕ → A → ℕ → A
update f i v j = if j == i then v else f j

pub update_self {ℓ} : {A : Type ℓ} (f : ℕ → A) (i : ℕ) (v : A) → update f i v i ≡ v
unfolding update
update_self f i v = rw (eq→== i i refl) refl

pub update_ne {ℓ} : {A : Type ℓ} (f : ℕ → A) (i j : ℕ) (v : A) → j ≢ i → update f i v j ≡ f j
unfolding update
update_ne f i j v ne = rw (ne→== j i ne) refl
