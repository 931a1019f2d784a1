-- ===== src/Frontmatter/Types.antt =====
-- The data types of frontmatter.rs: the five open enumerations with `parse` and `Display`, the
-- provenance, the frontmatter, the warnings and the result of a parse.
pub mod Shown
use wkp.Base.{ℕ, Bool, true, false, List, [], Option, none, if◌then◌else◌}
use wkp.Str.{Text, codes, text_eq}

pub data ItemType : Type 0 where
  project_state knowledge reference feedback skill instruction memory : ItemType
  other : Text → ItemType

pub data Scope : Type 0 where
  user project org : Scope
  other : Text → Scope

pub data Visibility : Type 0 where
  shared private : Visibility
  other : Text → Visibility

pub data Confidence : Type 0 where
  stated inferred proposed : Confidence
  other : Text → Confidence

pub data SourceKind : Type 0 where
  conversation file tool import : SourceKind
  other : Text → SourceKind

unfoldable pub parse_item_type : Text → ItemType
parse_item_type raw =
    if text_eq raw (codes "project-state")
    then ItemType.project_state
    else if text_eq raw (codes "knowledge")
    then ItemType.knowledge
    else if text_eq raw (codes "reference")
    then ItemType.reference
    else if text_eq raw (codes "feedback")
    then ItemType.feedback
    else if text_eq raw (codes "skill")
    then ItemType.skill
    else if text_eq raw (codes "instruction")
    then ItemType.instruction
    else if text_eq raw (codes "memory")
    then ItemType.memory
    else ItemType.other raw

unfoldable pub show_item_type : ItemType → Text
show_item_type ItemType.project_state = codes "project-state"
show_item_type ItemType.knowledge = codes "knowledge"
show_item_type ItemType.reference = codes "reference"
show_item_type ItemType.feedback = codes "feedback"
show_item_type ItemType.skill = codes "skill"
show_item_type ItemType.instruction = codes "instruction"
show_item_type ItemType.memory = codes "memory"
show_item_type (ItemType.other s) = s

unfoldable pub parse_scope : Text → Scope
parse_scope raw =
    if text_eq raw (codes "user")
    then Scope.user
    else if text_eq raw (codes "project")
    then Scope.project
    else if text_eq raw (codes "org")
    then Scope.org
    else Scope.other raw

unfoldable pub show_scope : Scope → Text
show_scope Scope.user = codes "user"
show_scope Scope.project = codes "project"
show_scope Scope.org = codes "org"
show_scope (Scope.other s) = s

unfoldable pub parse_visibility : Text → Visibility
parse_visibility raw =
    if text_eq raw (codes "shared")
    then Visibility.shared
    else if text_eq raw (codes "private")
    then Visibility.private
    else Visibility.other raw

unfoldable pub show_visibility : Visibility → Text
show_visibility Visibility.shared = codes "shared"
show_visibility Visibility.private = codes "private"
show_visibility (Visibility.other s) = s

unfoldable pub parse_confidence : Text → Confidence
parse_confidence raw =
    if text_eq raw (codes "stated")
    then Confidence.stated
    else if text_eq raw (codes "inferred")
    then Confidence.inferred
    else if text_eq raw (codes "proposed")
    then Confidence.proposed
    else Confidence.other raw

unfoldable pub show_confidence : Confidence → Text
show_confidence Confidence.stated = codes "stated"
show_confidence Confidence.inferred = codes "inferred"
show_confidence Confidence.proposed = codes "proposed"
show_confidence (Confidence.other s) = s

unfoldable pub parse_source_kind : Text → SourceKind
parse_source_kind raw =
    if text_eq raw (codes "conversation")
    then SourceKind.conversation
    else if text_eq raw (codes "file")
    then SourceKind.file
    else if text_eq raw (codes "tool")
    then SourceKind.tool
    else if text_eq raw (codes "import")
    then SourceKind.import
    else SourceKind.other raw

unfoldable pub show_source_kind : SourceKind → Text
show_source_kind SourceKind.conversation = codes "conversation"
show_source_kind SourceKind.file = codes "file"
show_source_kind SourceKind.tool = codes "tool"
show_source_kind SourceKind.import = codes "import"
show_source_kind (SourceKind.other s) = s

pub record Provenance : Type 0 where
  pub actor : Option Text
  pub session : Option Text
  pub source : Option SourceKind

pub record Frontmatter : Type 0 where
  pub title : Option Text
  pub item_type : Option ItemType
  pub scope : Option Scope
  pub workspace : Option Text
  pub visibility : Option Visibility
  pub provenance : Provenance
  pub confidence : Option Confidence
  pub expires : Option Text
  pub tokens_raw : Option Text
  pub tokens : Option ℕ
  pub tags : List Text
  pub refs : List Text
  pub updated : Option Text

-- `Frontmatter::default()`
abbrev pub default : Frontmatter
default = record {
  title = none;
  item_type = none;
  scope = none;
  workspace = none;
  visibility = none;
  provenance = record { actor = none; session = none; source = none };
  confidence = none;
  expires = none;
  tokens_raw = none;
  tokens = none;
  tags = [];
  refs = [];
  updated = none;
}

-- The warnings, a constructor for each message, with the text that the message quotes.
pub data Warning : Type 0 where
  unterminated : Warning
  unexpected_indent no_key malformed_provenance provenance_at_top : Text → Warning

pub record ParseResult : Type 0 where
  pub frontmatter : Frontmatter
  pub body : Text
  pub warnings : List Warning
