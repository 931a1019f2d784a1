-- ===== src/Git/Signers.antt =====
-- allowed_signers.rs: the file of signers, and the signer that `git log` reports.
use wkp.Base.{
  ◌≡◌, refl, sym, ap, ap₂, ◌∙◌, ◌≢◌, ◌↔◌, Bool, true, not, ◌&&◌, Option, none, some, List, [], ◌∷◌,
  ◌++◌, map, arith, ◌==◌, if◌then◌else◌, filter, is_empty, filter_map, is_some,
}
use wkp.Str.{
  Text, codes, text_eq, trim, trim_end_by, strip_prefix, split_once, split_by, split_inclusive,
  chomp, is_whitespace,
}
use wkp.Str.Laws.{split_once_sound, text_eq_iff}

pub data SignerRole : Type 0 where
  human agent other : SignerRole

unfoldable pub from_principal : Text → SignerRole
from_principal principal =
    if is_some (strip_prefix (codes "human:") principal)
    then SignerRole.human
    else if is_some (strip_prefix (codes "agent:") principal)
    then SignerRole.agent
    else SignerRole.other

-- `splitn(2, '\t')`, the second part empty where there is none
abbrev pub two_fields : Text → Option (Text × Text) → Text × Text
two_fields whole none = (whole, [])
two_fields whole (some fields) = fields

abbrev pub good_signer : Text × Text → Option (Text × SignerRole)
good_signer (validity, signer) =
    if text_eq validity (codes "G") && not (is_empty signer)
    then some (signer, from_principal signer)
    else none

unfoldable pub parse_signer_line : Text → Option (Text × SignerRole)
unfolding from_principal
parse_signer_line output =
    let line = trim_end_by (λ c. c == b'\n') output in
    good_signer (two_fields line (split_once b'\t' line))

pub record SignerEntry : Type 0 where
  pub principal : Text
  pub role : SignerRole
  pub key_type : Text
  pub key_base64 : Text

-- `split_whitespace`
abbrev pub words : Text → List Text
words t = filter (λ word. not (is_empty word)) (split_by is_whitespace t)

abbrev pub entry_of : List Text → Option SignerEntry
entry_of (principal ∷ key_type ∷ key_base64 ∷ []) = some record {
  principal = principal;
  role = from_principal principal;
  key_type = key_type;
  key_base64 = key_base64;
}
entry_of _ = none

abbrev pub is_comment : Text → Bool
is_comment [] = true
is_comment (c ∷ cs) = c == b'#'

-- The closure of `parse` on one line.
unfoldable pub parse_entry : Text → Option SignerEntry
unfolding from_principal
parse_entry raw = let line = trim raw in if is_comment line then none else entry_of (words line)

unfoldable pub parse_signers : Text → List SignerEntry
unfolding parse_entry
parse_signers contents = filter_map parse_entry (map chomp (split_inclusive contents))

unfoldable pub render_line : SignerEntry → Text
render_line entry = entry.principal ++ (b' ' ∷ (entry.key_type ++ (b' ' ∷ entry.key_base64)))

good_signer_sound :
    (validity field signer : Text) (role : SignerRole)
    → good_signer (validity, field) ≡ some (signer, role)
    → (validity ≡ codes "G") × (field ≡ signer) × (signer ≢ []) × (role ≡ from_principal signer)
good_signer_sound validity [] signer role h = ground (arith, h)
good_signer_sound validity (c ∷ field) signer role h =
    ground (arith, h, text_eq_iff validity (codes "G"))

signer_sound :
    (line signer : Text) (role : SignerRole) (o : Option (Text × Text))
    → split_once b'\t' line ≡ o
    → good_signer (two_fields line o) ≡ some (signer, role)
    → (line ≡ codes "G\t" ++ signer) × (signer ≢ []) × (role ≡ from_principal signer)
signer_sound line signer role none e h = ground (arith, h)
signer_sound line signer role (some (a, b)) e h =
    let (good, same, solid, known) = good_signer_sound a b signer role h in
    (split_once_sound b'\t' line a b e ∙ ap₂ (λ a b. a ++ b'\t' ∷ b) good same, solid, known)

signer_complete :
    (signer : Text)
    → signer ≢ []
    → good_signer (two_fields (codes "G\t" ++ signer) (split_once b'\t' (codes "G\t" ++ signer)))
      ≡ some (signer, from_principal signer)
unfolding split_once text_eq
signer_complete [] h = absurd (h refl)
signer_complete (c ∷ signer) h = refl

-- The signer of a commit is known exactly when git's line is the validity `G`, a tab and a signer that is not empty; its role is that of its principal.
pub parse_signer_line_iff :
    (output signer : Text) (role : SignerRole)
    → (parse_signer_line output ≡ some (signer, role)) ↔ (
        (trim_end_by (λ c. c == b'\n') output ≡ codes "G\t" ++ signer)
        × (signer ≢ [])
        × (role ≡ from_principal signer))
unfolding parse_signer_line
parse_signer_line_iff output signer role =
    let line = trim_end_by (λ c. c == b'\n') output in
    (
      λ h. signer_sound line signer role (split_once b'\t' line) refl h,
      λ (e, solid, known).
          ap (λ l. good_signer (two_fields l (split_once b'\t' l))) e
          ∙ signer_complete signer solid
          ∙ ap (λ r. some (signer, r)) (sym known),
    )
