-- ===== src/Tier/Gate.antt =====
-- What lets an item of tier.rs into the tiers 0 and 1, which a session is given by itself.
use wkp.Base.{
  ℕ, zero, suc, ◌≤◌, ◌≡◌, refl, subst, ◌↔◌, inl, inr, Bool, true, false, not, ◌&&◌, Option, none,
  some, [], ◌∷◌, arith, ltb, leb, if◌then◌else◌, Bool-cases, length, take, all, map_option,
}
use wkp.Str.{Text}
use wkp.Frontmatter.Types.{Frontmatter, ItemType}
use wkp.Tier.Paths.{InScope, InInbox, in_scope_iff, is_inbox_iff}
use wkp.Tier.Compute.{
  is_inbox, in_scope, tier_of_type, expired, is_expired, compute_tier, width, byte_len, byte_prefix,
  text_lt, today_iso_date,
}

-- The types of item that are given by themselves, with the tier, an instruction only in its scope.
pub data Given (path : Text) : Option ItemType → ℕ → Type 0 where
  project_state : Given path (some ItemType.project_state) 0
  feedback : Given path (some ItemType.feedback) 1
  knowledge : Given path (some ItemType.knowledge) 1
  instruction : InScope path → Given path (some ItemType.instruction) 0

pub record Gate (now : ℕ) (path : Text) (fm : Frontmatter) (human_signed : Bool) (tier : ℕ)
    : Type 0 where
  pub signed : human_signed ≡ true
  pub reviewed : ¬ InInbox path
  pub current : expired now fm.expires ≡ some false
  pub given : Given path fm.item_type tier

instruction-Given :
    (path : Text) (k : ℕ)
    → tier_of_type path (some ItemType.instruction) ≡ k
    → k ≤ 1
    → Given path (some ItemType.instruction) k
instruction-Given path k e h = elim (Bool-cases (in_scope path)) [
  | inl within ↦
      let zero_tier : 0 ≡ k = ground (arith, e, within) in
      subst (Given path (some ItemType.instruction)) zero_tier
        (Given.instruction ((in_scope_iff path).0 within))
  | inr outside ↦ absurd (ground (arith, e, h, outside))
]

tier_of_type-Given :
    (path : Text) (t : Option ItemType) (k : ℕ) → tier_of_type path t ≡ k → k ≤ 1 → Given path t k
tier_of_type-Given path none k e h = absurd (omega arith)
tier_of_type-Given path (some ItemType.project_state) k e h =
    subst (Given path _) e Given.project_state
tier_of_type-Given path (some ItemType.feedback) k e h = subst (Given path _) e Given.feedback
tier_of_type-Given path (some ItemType.knowledge) k e h = subst (Given path _) e Given.knowledge
tier_of_type-Given path (some ItemType.instruction) k e h = instruction-Given path k e h
tier_of_type-Given path (some ItemType.reference) k e h = absurd (omega arith)
tier_of_type-Given path (some ItemType.skill) k e h = absurd (omega arith)
tier_of_type-Given path (some ItemType.memory) k e h = absurd (omega arith)
tier_of_type-Given path (some (ItemType.other s)) k e h = absurd (omega arith)

Given-tier_of_type :
    (path : Text) (t : Option ItemType) (k : ℕ) → Given path t k → tier_of_type path t ≡ k
Given-tier_of_type path t k Given.project_state = refl
Given-tier_of_type path t k Given.feedback = refl
Given-tier_of_type path t k Given.knowledge = refl
Given-tier_of_type path t k (Given.instruction scope) = rw ((in_scope_iff path).1 scope) refl

not_inbox : (path : Text) → ¬ InInbox path → is_inbox path ≡ false
not_inbox path apart = elim (Bool-cases (is_inbox path)) [
  | inl e ↦ absurd (apart ((is_inbox_iff path).0 e))
  | inr e ↦ e
]

-- The three guards before the type is looked at.
abbrev guarded : Bool → Bool → Option Bool → ℕ → Option ℕ
guarded inbox signed late tier =
    if inbox
    then some 2
    else if not signed
    then some 2
    else map_option (λ e. if e then 2 else tier) late

some_value : (a b : ℕ) → some a ≡ some b → a ≡ b
some_value a b h = ground (arith, h)

guarded-passed :
    (inbox signed : Bool) (late : Option Bool) (tier k : ℕ)
    → guarded inbox signed late tier ≡ some k
    → k ≤ 1
    → (signed ≡ true) × (inbox ≡ false) × (late ≡ some false) × (tier ≡ k)
guarded-passed true signed late tier k e h = absurd (let v = some_value 2 k e in omega arith)
guarded-passed false false late tier k e h = absurd (let v = some_value 2 k e in omega arith)
guarded-passed false true none tier k e h = ground (arith, e)
guarded-passed false true (some true) tier k e h = absurd (let v = some_value 2 k e in omega arith)
guarded-passed false true (some false) tier k e h = (refl, refl, refl, some_value tier k e)

-- An item is in the tier 0 or 1 exactly when its latest commit is signed by a human, its path
-- neither begins with `inbox/` nor has `/inbox/` in it, `is_expired` does not hold for its date,
-- and its type is given in that tier: 0 for a project's state, 1 for feedback and knowledge, and 0
-- for an instruction, but only if its path begins with `user/` or has `projects/` at any place, be
-- it the end of a longer name.
pub compute_tier-Gate :
    (now : ℕ) (path : Text) (fm : Frontmatter) (human_signed : Bool) (k : ℕ)
    → k ≤ 1
    → (compute_tier now path fm human_signed ≡ some k) ↔ Gate now path fm human_signed k
unfolding compute_tier
compute_tier-Gate now path fm human_signed k h = (
  λ e.
      let (signed, reviewed, current, same) =
        guarded-passed (is_inbox path) human_signed (expired now fm.expires)
          (tier_of_type path fm.item_type) k e h in
      record {
        signed = signed;
        reviewed = λ inbox. (let e = (is_inbox_iff path).1 inbox in cc);
        current = current;
        given = tier_of_type-Given path fm.item_type k same h;
      },
  λ g.
      rw
        (
          not_inbox path g.reviewed,
          g.signed,
          g.current,
          Given-tier_of_type path fm.item_type k g.given,
        )
        refl,
)

-- Expiry

abbrev IsAscii : Text → Type 0
IsAscii t = all (λ c. ltb c 0x80) t ≡ true

byte_prefix-ascii :
    (n : ℕ) (t : Text) → IsAscii t → n ≤ length t → byte_prefix n t ≡ some (take n t)
unfolding byte_prefix width
byte_prefix-ascii zero [] h l = refl
byte_prefix-ascii zero (c ∷ cs) h l = refl
byte_prefix-ascii (suc n) [] h l = absurd (omega arith)
byte_prefix-ascii (suc n) (c ∷ cs) h l =
    let r = byte_prefix-ascii n cs (ground (arith, h)) (omega arith) in ground (arith, h, r)

byte_len-ascii : (t : Text) → IsAscii t → byte_len t ≡ length t
unfolding byte_len width
byte_len-ascii [] h = refl
byte_len-ascii (c ∷ cs) h = let r = byte_len-ascii cs (ground (arith, h)) in ground (arith, h)

-- For an ASCII text, `is_expired` does not panic: a text shorter than a date has not expired,
-- and any other has when its first ten characters come before today's date.
pub is_expired_lem :
    (now : ℕ) (expires : Text)
    → IsAscii expires
    → is_expired now expires
      ≡ some (leb 10 (length expires) && text_lt (take 10 expires) (today_iso_date now))
unfolding is_expired
is_expired_lem now expires h =
    let l = byte_len-ascii expires h in
    elim (Bool-cases (ltb (length expires) 10)) [
      | inl short ↦ ground (arith, l, short)
      | inr long ↦
          let p = byte_prefix-ascii 10 expires h (ground arith) in ground (arith, l, long, p)
    ]
