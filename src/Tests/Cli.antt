-- ===== src/Tests/Cli.antt =====
-- The command line: promote.rs.
use wkp.Base.{◌≡◌, refl, inl, Option, none, some, [], ◌∷◌, if◌then◌else◌}
use wkp.Str.{
  Text, codes, text_eq, strip_prefix, trim_start_by, trim_end_by, is_whitespace, split_by,
  split_inclusive, chomp, strip_last,
}
use wkp.Frontmatter.Types.{Scope}
use wkp.Git.Signers.{from_principal}
use wkp.Graph.Paths.{components}
use wkp.Promote.{
  PromoteOptions, parse_promote_args, parse_args, read_promote_auto_list, auto_lines, auto_line,
}
use wkp.Promote.Disk.{Disk, PromoteSummary, promoted, refused, not_allowed}
use wkp.Promote.Run.{
  Store, file_name, infer_promote_destination, destination_of, move_to, atomic_write,
  promote_contents, is_allowed, run_promote,
}
use wkp.Promote.Safety.{KeepsTexts, run_promote-KeepsTexts}
use wkp.Promote.Safety.Done.{MayPromote, IsMoved, run_promote_done}

abbrev store : Store
store = record { resolve = λ path. path; project_dirs = some (codes "wkp" ∷ []) }

abbrev one_item : Text → Option Text
one_item path = if text_eq path (codes "inbox/a.md") then some (codes "hi") else none

abbrev disk : Disk
disk = record { files = one_item; git = []; faults = [] }

abbrev options : PromoteOptions
options = record {
  path = codes ".";
  inbox_path = codes "inbox/a.md";
  to = some (codes "user/a.md");
  principal = codes "human:alice";
  signing_key_file = codes "key";
}

abbrev summary : PromoteSummary
summary = record { from = codes "inbox/a.md"; to = codes "user/a.md" }

run_promote-KeepsTexts_example :
    KeepsTexts one_item (codes "inbox/a.md") (run_promote store options disk).1.files
run_promote-KeepsTexts_example = run_promote-KeepsTexts store options disk

moves : (run_promote store options disk).0 ≡ promoted summary
unfolding run_promote is_allowed from_principal promote_contents destination_of move_to atomic_write
    strip_prefix text_eq read_promote_auto_list
moves = refl

run_promote_done_example :
    MayPromote store options disk
    × IsMoved store options one_item [] summary (run_promote store options disk).1
run_promote_done_example = run_promote_done store options summary disk moves

-- An agent that is not listed is refused.
agent_refused :
    (run_promote store (record options { principal = codes "agent:a" }) disk).0
    ≡ refused not_allowed
unfolding run_promote is_allowed from_principal strip_prefix text_eq read_promote_auto_list
agent_refused = refl

inferred :
    infer_promote_destination store (codes "inbox/a.md") (some Scope.project)
    ≡ inl (codes "projects/wkp/a.md")
unfolding infer_promote_destination file_name components split_by text_eq
inferred = refl

listed :
    read_promote_auto_list (some (codes "[other]\nx = 1\n\n[promote]\nauto = [\"agent:a\", 'b']\n"))
    ≡ codes "agent:a" ∷ codes "b" ∷ []
unfolding read_promote_auto_list auto_lines auto_line strip_prefix text_eq trim_start_by trim_end_by
    is_whitespace split_by split_inclusive chomp strip_last
listed = refl

parsed :
    parse_promote_args (codes ".") (
      codes "inbox/a.md"
      ∷ codes "--to"
      ∷ codes "user/a.md"
      ∷ codes "--principal"
      ∷ codes "human:alice"
      ∷ codes "--signing-key-file"
      ∷ codes "key"
      ∷ [])
    ≡ some options
unfolding parse_promote_args parse_args text_eq strip_prefix
parsed = refl
