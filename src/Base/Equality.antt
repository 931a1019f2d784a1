-- ===== src/Base/Equality.antt =====
-- Boolean equality with its law, as an interface.
use mathlib.Core.Bool.{Bool, true, false}
use mathlib.Core.Logic.{◌↔◌}
use mathlib.Core.Option.{Option, none, some}
use mathlib.Core.Path.{◌≡◌}
use native.Mathlib.Omega.{arith}

-- `PartialEq` with the law that the derived instances have.
pub record Eq {ℓ} (A : Type ℓ) : Type ℓ where
  pub beq : A → A → Bool
  pub beq_iff : (a b : A) → (beq a b ≡ true) ↔ (a ≡ b)

abbrev pub option_beq {ℓ} : {A : Type ℓ} → (A → A → Bool) → Option A → Option A → Bool
option_beq beq none none = true
option_beq beq (some a) (some b) = beq a b
option_beq beq _ _ = false

pub option_beq_iff {ℓ} :
    {A : Type ℓ} (beq : A → A → Bool)
    → ((a b : A) → (beq a b ≡ true) ↔ (a ≡ b))
    → (a b : Option A) → (option_beq beq a b ≡ true) ↔ (a ≡ b)
option_beq_iff beq h (some a) (some b) = ground (arith, h a b)
option_beq_iff beq h _ _ = ground arith

instance abbrev pub option_eq {ℓ} : {A : Type ℓ} ⦃e : Eq A⦄ → Eq (Option A)
option_eq ⦃e⦄ = record { beq = option_beq e.beq; beq_iff = option_beq_iff e.beq e.beq_iff }
