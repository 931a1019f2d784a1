-- ===== src/Promote.antt =====
-- crates/wkp-cli/src/promote.rs: `wkp promote`, its arguments and its `[promote] auto` list.
pub mod Disk
pub mod Run
pub mod Safety
pub mod Config
use wkp.Base.{
  ℕ, zero, suc, ◌+◌, ◌-◌, ◌*◌, ◌/◌, ◌%◌, ◌^◌, ◌≤◌, ◌<◌, min, max, String, ◌≡◌, refl, sym, ap, ap₂,
  ◌∙◌, subst, ◌≡⟨◌⟩◌, ◌∎, ◌≢◌, ◌↔◌, ◌⊎◌, inl, inr, Bool, true, false, not, ◌&&◌, ◌||◌, Option, none,
  some, List, [], ◌∷◌, ◌++◌, map, append-nil, append_assoc, arith, ltb, leb, ◌==◌, if◌then◌else◌,
  ==_iff, Bool-cases, Option-cases, &&-elim, length, take, drop, flatten, filter, take_while, all,
  any, is_empty, length-append, take-append, drop-append, filter_map, or_else, is_some, map_option,
  ◌>>=◌, all-append, drop_past, push_some,
}
use wkp.Str.{
  Text, codes, text_eq, trim, trim_start, trim_start_by, trim_end_by, strip_prefix, strip_last,
  split_by, split_inclusive, chomp,
}

-- The arguments so far.
pub record PromoteArgs : Type 0 where
  pub path : Text
  pub inbox_path : Option Text
  pub to : Option Text
  pub principal : Option Text
  pub signing_key_file : Option Text

pub record PromoteOptions : Type 0 where
  pub path : Text
  pub inbox_path : Text
  pub to : Option Text
  pub principal : Text
  pub signing_key_file : Text

pub data PromoteFlag : Type 0 where
  to_flag principal_flag signing_key_file_flag path_flag : PromoteFlag

abbrev pub flag_of : Text → Option PromoteFlag
flag_of arg =
    if text_eq arg (codes "--to")
    then some to_flag
    else if text_eq arg (codes "--principal")
    then some principal_flag
    else if text_eq arg (codes "--signing-key-file")
    then some signing_key_file_flag
    else if text_eq arg (codes "--path")
    then some path_flag
    else none

abbrev pub set_flag : PromoteFlag → Text → PromoteArgs → PromoteArgs
set_flag to_flag value args = record args { to = some value }
set_flag principal_flag value args = record args { principal = some value }
set_flag signing_key_file_flag value args = record args { signing_key_file = some value }
set_flag path_flag value args = record args { path = value }

abbrev pub set_inbox_path : Text → PromoteArgs → Option PromoteArgs
set_inbox_path arg args =
    if is_some args.inbox_path || is_some (strip_prefix (codes "-") arg)
    then none
    else some (record args { inbox_path = some arg })

-- The loop over the arguments; `none` where one is not recognized or has no value.
unfoldable pub parse_args : PromoteArgs → List Text → Option PromoteArgs
parse_args args [] = some args
parse_args args (arg ∷ []) = elim (flag_of arg) [
  | some flag ↦ none
  | none ↦ set_inbox_path arg args
]
parse_args args (arg ∷ value ∷ rest) = elim (flag_of arg) [
  | some flag ↦ parse_args (set_flag flag value args) rest
  | none ↦ elim (set_inbox_path arg args) [
    | none ↦ none
    | some args' ↦ parse_args args' (value ∷ rest)
  ]
]

abbrev pub required : PromoteArgs → Option PromoteOptions
required args = do
  inbox_path ← args.inbox_path
  principal ← args.principal
  signing_key_file ← args.signing_key_file
  some (record {
    path = args.path;
    inbox_path = inbox_path;
    to = args.to;
    principal = principal;
    signing_key_file = signing_key_file;
  })

unfoldable pub parse_promote_args : Text → List Text → Option PromoteOptions
unfolding parse_args
parse_promote_args current_dir args =
    parse_args
      (record {
        path = current_dir;
        inbox_path = none;
        to = none;
        principal = none;
        signing_key_file = none;
      })
      args
    >>= required

-- The `[promote] auto` list of `.wkp/config.toml`.

-- `trim_matches` of one character
abbrev pub trim_matches : ℕ → Text → Text
trim_matches q t = trim_end_by (λ c. c == q) (trim_start_by (λ c. c == q) t)

abbrev pub auto_entry : Text → Text
auto_entry part = trim_matches b'\'' (trim_matches b'"' (trim part))

abbrev pub auto_entries : Text → List Text
auto_entries inner =
    filter (λ part. not (is_empty part)) (map auto_entry (split_by (λ c. c == b',') inner))

abbrev pub entries_or_none : Option Text → List Text
entries_or_none none = []
entries_or_none (some inner) = auto_entries inner

-- The entries of one line of the section.
unfoldable pub auto_line : Text → List Text
auto_line trimmed = entries_or_none (do
  rest ← strip_prefix (codes "auto") trimmed
  value ← strip_prefix (codes "=") (trim_start rest)
  opened ← strip_prefix (codes "[") (trim value)
  strip_last b']' opened)

unfoldable pub auto_lines : Bool → List Text → List Text
unfolding auto_line
auto_lines in_promote_section [] = []
auto_lines in_promote_section (line ∷ lines) =
    let trimmed = trim line in
    let section = text_eq trimmed (codes "[promote]") in
    elim (is_some (strip_prefix (codes "[") trimmed)) [
      | true ↦ auto_lines section lines
      | false ↦ elim in_promote_section [
        | false ↦ auto_lines false lines
        | true ↦ auto_line trimmed ++ auto_lines true lines
      ]
    ]

-- The contents of the file, `none` where it cannot be read.
unfoldable pub read_promote_auto_list : Option Text → List Text
unfolding auto_lines
read_promote_auto_list none = []
read_promote_auto_list (some contents) = auto_lines false (map chomp (split_inclusive contents))
