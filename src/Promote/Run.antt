-- ===== src/Promote/Run.antt =====
-- promote.rs: `infer_promote_destination` and `run_promote`, with `atomic_write` of main.rs. The
-- sorted project directories are an argument.
use wkp.Base.{
  ◌⊎◌, inl, inr, Bool, true, false, ◌||◌, Option, none, some, List, [], ◌∷◌, ◌++◌, if◌then◌else◌,
  any, is_some,
}
use wkp.Str.{Text, codes, text_eq, strip_prefix}
use wkp.Graph.Paths.{components}
use wkp.Frontmatter.Types.{Scope}
use wkp.Frontmatter.Parse.{parse}
use wkp.Git.Signers.{SignerRole, from_principal}
use wkp.Promote.{PromoteOptions, read_promote_auto_list}
use wkp.Promote.Disk.{
  remove_from_index, signed_commit, PromoteError, promoted, Run, fail, attempt, put, call,
  read_file, not_in_inbox, not_allowed, no_file_name, no_project, many_projects, org_scope,
  other_scope, no_scope, already_exists, failed,
}

-- What is outside: where a path leads, and the directories under `projects`, `none` where they
-- cannot be listed.
pub record Store : Type 0 where
  pub resolve : Text → Text
  pub project_dirs : Option (List Text)

abbrev last_part : List Text → Option Text
last_part [] = none
last_part (part ∷ []) = if text_eq part (codes "..") then none else some part
last_part (part ∷ next ∷ parts) = last_part (next ∷ parts)

-- `Path::file_name`
unfoldable pub file_name : Text → Option Text
file_name path = last_part (components path).parts

-- A destination, or why there is none.
abbrev pub Destination : Type 0
Destination = Text ⊎ PromoteError

abbrev pub project_destination : Text → Option (List Text) → Destination
project_destination basename none = inr failed
project_destination basename (some []) = inr no_project
project_destination basename (some (only ∷ [])) = inl (codes "projects/" ++ only ++ b'/' ∷ basename)
project_destination basename (some (_ ∷ _ ∷ _)) = inr many_projects

abbrev pub scope_destination : Store → Text → Option Scope → Destination
scope_destination store basename (some Scope.user) = inl (codes "user/" ++ basename)
scope_destination store basename (some Scope.project) =
    project_destination basename store.project_dirs
scope_destination store basename (some Scope.org) = inr org_scope
scope_destination store basename (some (Scope.other raw)) = inr other_scope
scope_destination store basename none = inr no_scope

unfoldable pub infer_promote_destination : Store → Text → Option Scope → Destination
unfolding file_name
infer_promote_destination store inbox_path scope = elim (file_name inbox_path) [
  | none ↦ inr no_file_name
  | some basename ↦ scope_destination store basename scope
]

-- The temporary file is written, and renamed.
unfoldable pub atomic_write : Text → Text → Run → Run
atomic_write place contents next = attempt (λ d. d) (attempt (put place (some contents)) next)

abbrev pub subject_of : Text → Text → Text
subject_of from to = codes "promote: " ++ from ++ codes " -> " ++ to

abbrev pub finish : PromoteOptions → Text → Run
finish opts dest d = (promoted (record { from = opts.inbox_path; to = dest }), d)

abbrev pub commit_move : PromoteOptions → Text → Run
commit_move opts dest = attempt (call (remove_from_index opts.inbox_path)) (
    attempt
      (call
        (signed_commit dest (subject_of opts.inbox_path dest) opts.principal opts.signing_key_file))
      (finish opts dest))

abbrev pub remove_source : Store → PromoteOptions → Text → Run
remove_source store opts dest =
    attempt (put (store.resolve opts.inbox_path) none) (commit_move opts dest)

-- From the test of the destination on: the directories, the file, the removal and the commit.
unfoldable pub move_to : Store → PromoteOptions → Text → Text → Run
unfolding atomic_write
move_to store opts contents dest = λ d.
    if is_some (d.files (store.resolve dest))
    then fail already_exists d
    else attempt (λ d. d)
        (atomic_write (store.resolve dest) contents (remove_source store opts dest)) d

abbrev pub move_or_fail : Store → PromoteOptions → Text → Destination → Run
move_or_fail store opts contents (inl dest) = move_to store opts contents dest
move_or_fail store opts contents (inr e) = fail e

unfoldable pub destination_of : Store → PromoteOptions → Text → Destination
unfolding infer_promote_destination parse
destination_of store opts contents = elim opts.to [
  | some to ↦ inl to
  | none ↦ infer_promote_destination store opts.inbox_path (parse contents).frontmatter.scope
]

unfoldable pub promote_contents : Store → PromoteOptions → Option Text → Run
unfolding move_to destination_of
promote_contents store opts none = fail failed
promote_contents store opts (some contents) =
    move_or_fail store opts contents (destination_of store opts contents)

-- A human, or one of the list.
abbrev is_human : SignerRole → Bool
is_human SignerRole.human = true
is_human _ = false

unfoldable pub is_allowed : Text → List Text → Bool
unfolding from_principal
is_allowed principal allowed_auto =
    is_human (from_principal principal) || any (λ p. text_eq p principal) allowed_auto

unfoldable pub run_promote : Store → PromoteOptions → Run
unfolding is_allowed promote_contents
run_promote store opts =
    if is_some (strip_prefix (codes "inbox/") opts.inbox_path)
    then read_file (store.resolve (codes ".wkp/config.toml")) (λ config.
      if is_allowed opts.principal (read_promote_auto_list config)
      then read_file (store.resolve opts.inbox_path) (promote_contents store opts)
      else fail not_allowed)
    else fail not_in_inbox
