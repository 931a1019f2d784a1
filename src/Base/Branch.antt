-- ===== src/Base/Branch.antt =====
-- Proofs by the two branches of a test.
use mathlib.Core.Path.{◌≡◌, refl}
use mathlib.Core.Bool.{Bool, true, false}
use wkp.Base.Tests.{if◌then◌else◌}

-- Both branches of a test.
pub branch {ℓ ℓ'} :
    {X : Type ℓ}
    → (P : X → Type ℓ') → (b : Bool) → (x y : X) → (b ≡ true → P x)
    → (b ≡ false → P y)
    → P (if b then x else y)
branch P true x y passed failed = passed refl
branch P false x y passed failed = failed refl
