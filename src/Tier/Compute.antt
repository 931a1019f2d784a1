-- ===== src/Tier/Compute.antt =====
-- `compute_tier`, `is_expired`, `today_iso_date` and `estimate_tokens` of tier.rs. The clock is the
-- number of seconds since the epoch. A slice of a text that does not end at the border of a
-- character is `none`: the program panics there.
use wkp.Base.{
  ℕ, zero, suc, ◌+◌, ◌-◌, ◌/◌, ◌%◌, ◌^◌, max, Bool, true, false, not, ◌||◌, Option, none, some, [],
  ◌∷◌, ◌++◌, ltb, leb, ◌==◌, if◌then◌else◌, length, is_some, map_option,
}
use wkp.Str.{Text, codes, strip_prefix}
use wkp.Frontmatter.Render.{show_u32}
use wkp.Frontmatter.Types.{Frontmatter, ItemType}
use wkp.Tier.Civil.{ℤ, pos, negsuc, Date, civil_from_days}

-- `starts_with` and `contains` of `str`
unfoldable pub starts_with : Text → Text → Bool
starts_with t p = is_some (strip_prefix p t)

unfoldable pub contains_text : Text → Text → Bool
contains_text [] p = starts_with [] p
contains_text (c ∷ cs) p = starts_with (c ∷ cs) p || contains_text cs p

-- The bytes of a character in UTF-8, and of a text.
unfoldable pub width : ℕ → ℕ
width c = if ltb c 0x80 then 1 else if ltb c 0x800 then 2 else if ltb c 0x10000 then 3 else 4

unfoldable pub byte_len : Text → ℕ
byte_len [] = 0
byte_len (c ∷ cs) = width c + byte_len cs

-- `&t[..n]`, by clauses on the text
unfoldable pub byte_prefix : ℕ → Text → Option Text
byte_prefix n [] = if n == 0 then some [] else none
byte_prefix n (c ∷ cs) =
    let rest = byte_prefix (n - width c) cs in
    if n == 0 then some [] else if leb (width c) n then map_option (λ r. c ∷ r) rest else none

-- `<` on `str`, which UTF-8 keeps in the order of the code points
unfoldable pub text_lt : Text → Text → Bool
text_lt a [] = false
text_lt [] (y ∷ ys) = true
text_lt (x ∷ xs) (y ∷ ys) = if x == y then text_lt xs ys else ltb x y

-- `{n:0w}` for a natural number
abbrev zeros : ℕ → Text
zeros zero = []
zeros (suc n) = b'0' ∷ zeros n

unfoldable pub pad : ℕ → ℕ → Text
pad w n = zeros (w - length (show_u32 n)) ++ show_u32 n

-- `{y:04}`, whose width counts the sign
unfoldable pub show_year : ℤ → Text
show_year (pos y) = pad 4 y
show_year (negsuc y) = b'-' ∷ pad 3 (y + 1)

unfoldable pub show_date : Date → Text
show_date d = show_year d.year ++ (b'-' ∷ pad 2 d.month) ++ (b'-' ∷ pad 2 d.day)

unfoldable pub today_iso_date : ℕ → Text
today_iso_date now = show_date (civil_from_days (pos (now / 86400)))

unfoldable pub is_expired : ℕ → Text → Option Bool
is_expired now expires =
    if ltb (byte_len expires) 10
    then some false
    else map_option (λ day. text_lt day (today_iso_date now)) (byte_prefix 10 expires)

abbrev pub is_inbox : Text → Bool
is_inbox path = starts_with path (codes "inbox/") || contains_text path (codes "/inbox/")

abbrev pub in_scope : Text → Bool
in_scope path = starts_with path (codes "user/") || contains_text path (codes "projects/")

abbrev pub tier_of_type : Text → Option ItemType → ℕ
tier_of_type path none = 2
tier_of_type path (some ItemType.instruction) = if in_scope path then 0 else 2
tier_of_type path (some ItemType.project_state) = 0
tier_of_type path (some ItemType.feedback) = 1
tier_of_type path (some ItemType.knowledge) = 1
tier_of_type path (some _) = 2

abbrev pub expired : ℕ → Option Text → Option Bool
expired now none = some false
expired now (some expires) = is_expired now expires

unfoldable pub compute_tier : ℕ → Text → Frontmatter → Bool → Option ℕ
compute_tier now path fm human_signed =
    if is_inbox path
    then some 2
    else if not human_signed
    then some 2
    else map_option (λ e. if e then 2 else tier_of_type path fm.item_type) (expired now fm.expires)

-- `chars().count() as u32`
unfoldable pub estimate_tokens : Frontmatter → Text → ℕ
estimate_tokens fm body = elim fm.tokens [ some n ↦ n | none ↦ max (length body % 2 ^ 32 / 4) 1 ]
