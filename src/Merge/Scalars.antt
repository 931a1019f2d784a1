-- ===== src/Merge/Scalars.antt =====
-- `resolve_scalar` of merge.rs, and the equalities that it compares with.
use wkp.Base.{◌≡◌, ◌≢◌, ◌↔◌, Bool, true, false, arith, if◌then◌else◌}
use wkp.Base.Equality.{Eq}
use wkp.Str.{Text, text_eq}
use wkp.Str.Laws.{text_eq_iff}
use wkp.Frontmatter.Types.{ItemType, Scope, Visibility, Confidence}

instance abbrev pub text_equality : Eq Text
text_equality = record { beq = text_eq; beq_iff = text_eq_iff }

unfoldable pub item_type_beq : ItemType → ItemType → Bool
item_type_beq ItemType.project_state ItemType.project_state = true
item_type_beq ItemType.knowledge ItemType.knowledge = true
item_type_beq ItemType.reference ItemType.reference = true
item_type_beq ItemType.feedback ItemType.feedback = true
item_type_beq ItemType.skill ItemType.skill = true
item_type_beq ItemType.instruction ItemType.instruction = true
item_type_beq ItemType.memory ItemType.memory = true
item_type_beq (ItemType.other s) (ItemType.other t) = text_eq s t
item_type_beq _ _ = false

pub item_type_beq_iff : (a b : ItemType) → (item_type_beq a b ≡ true) ↔ (a ≡ b)
unfolding item_type_beq
item_type_beq_iff (ItemType.other s) (ItemType.other t) = ground (arith, text_eq_iff s t)
item_type_beq_iff _ _ = ground arith

unfoldable pub scope_beq : Scope → Scope → Bool
scope_beq Scope.user Scope.user = true
scope_beq Scope.project Scope.project = true
scope_beq Scope.org Scope.org = true
scope_beq (Scope.other s) (Scope.other t) = text_eq s t
scope_beq _ _ = false

pub scope_beq_iff : (a b : Scope) → (scope_beq a b ≡ true) ↔ (a ≡ b)
unfolding scope_beq
scope_beq_iff (Scope.other s) (Scope.other t) = ground (arith, text_eq_iff s t)
scope_beq_iff _ _ = ground arith

unfoldable pub visibility_beq : Visibility → Visibility → Bool
visibility_beq Visibility.shared Visibility.shared = true
visibility_beq Visibility.private Visibility.private = true
visibility_beq (Visibility.other s) (Visibility.other t) = text_eq s t
visibility_beq _ _ = false

pub visibility_beq_iff : (a b : Visibility) → (visibility_beq a b ≡ true) ↔ (a ≡ b)
unfolding visibility_beq
visibility_beq_iff (Visibility.other s) (Visibility.other t) = ground (arith, text_eq_iff s t)
visibility_beq_iff _ _ = ground arith

unfoldable pub confidence_beq : Confidence → Confidence → Bool
confidence_beq Confidence.stated Confidence.stated = true
confidence_beq Confidence.inferred Confidence.inferred = true
confidence_beq Confidence.proposed Confidence.proposed = true
confidence_beq (Confidence.other s) (Confidence.other t) = text_eq s t
confidence_beq _ _ = false

pub confidence_beq_iff : (a b : Confidence) → (confidence_beq a b ≡ true) ↔ (a ≡ b)
unfolding confidence_beq
confidence_beq_iff (Confidence.other s) (Confidence.other t) = ground (arith, text_eq_iff s t)
confidence_beq_iff _ _ = ground arith

instance abbrev pub item_type_equality : Eq ItemType
item_type_equality = record { beq = item_type_beq; beq_iff = item_type_beq_iff }

instance abbrev pub scope_equality : Eq Scope
scope_equality = record { beq = scope_beq; beq_iff = scope_beq_iff }

instance abbrev pub visibility_equality : Eq Visibility
visibility_equality = record { beq = visibility_beq; beq_iff = visibility_beq_iff }

instance abbrev pub confidence_equality : Eq Confidence
confidence_equality = record { beq = confidence_beq; beq_iff = confidence_beq_iff }

module _ {ℓ} {A : Type ℓ} ⦃e : Eq A⦄ where
  -- The field, and whether there is a conflict. On a conflict the field stays as it is.
  unfoldable pub resolve_scalar : A → A → A → A → A × Bool
  resolve_scalar field base ours theirs =
      if e.beq ours theirs
      then (ours, false)
      else if e.beq ours base
      then (theirs, false)
      else if e.beq theirs base
      then (ours, false)
      else (field, true)

  -- There is a conflict exactly when both sides changed the base, to different values.
  pub resolve_scalar_conflict :
      (field base ours theirs : A)
      → ((resolve_scalar field base ours theirs).1 ≡ true)
        ↔ ((ours ≢ theirs) × (ours ≢ base) × (theirs ≢ base))
  unfolding resolve_scalar
  resolve_scalar_conflict field base ours theirs =
      ground (arith, e.beq_iff ours theirs, e.beq_iff ours base, e.beq_iff theirs base)

  -- With no conflict: a side that the other left alone wins, and equal sides are kept.
  pub resolve_scalar_clean :
      (field base ours theirs : A)
      → (resolve_scalar field base ours theirs).1 ≡ false
      → (theirs ≡ base → (resolve_scalar field base ours theirs).0 ≡ ours)
        × (ours ≡ base → (resolve_scalar field base ours theirs).0 ≡ theirs)
        × (ours ≡ theirs → (resolve_scalar field base ours theirs).0 ≡ ours)
  unfolding resolve_scalar
  resolve_scalar_clean field base ours theirs h = (
    λ p. ground (arith, e.beq_iff ours theirs, e.beq_iff ours base, e.beq_iff theirs base),
    λ p. ground (arith, e.beq_iff ours theirs, e.beq_iff ours base, e.beq_iff theirs base),
    λ p. ground (arith, e.beq_iff ours theirs, e.beq_iff ours base, e.beq_iff theirs base),
  )

  -- Which side is called ours makes no difference to the outcome.
  pub resolve_scalar_comm :
      (field base ours theirs : A)
      → resolve_scalar field base ours theirs ≡ resolve_scalar field base theirs ours
  unfolding resolve_scalar
  resolve_scalar_comm field base ours theirs = ground (
    arith,
    e.beq_iff ours theirs,
    e.beq_iff theirs ours,
    e.beq_iff ours base,
    e.beq_iff theirs base,
  )
