-- ===== src/Promote/Disk.antt =====
-- The store on disk, as `wkp promote` changes it. What the file system makes of a path is an
-- argument; a path with the store's directory in front is the path. A temporary file, whose name is
-- not used by others, and new empty directories are left out.
use wkp.Base.{Bool, true, false, Option, none, List, [], ◌∷◌, if◌then◌else◌}
use wkp.Str.{Text, text_eq}

pub data GitCall : Type 0 where
  remove_from_index : Text → GitCall
  signed_commit : Text → Text → Text → Text → GitCall

-- The text files by their place, the calls of git, the last one first, and which of the coming
-- operations fail.
pub record Disk : Type 0 where
  pub files : Text → Option Text
  pub git : List GitCall
  pub faults : List Bool

pub data PromoteError : Type 0 where
  not_in_inbox not_allowed no_file_name no_project many_projects org_scope other_scope no_scope
        already_exists failed :
      PromoteError

pub record PromoteSummary : Type 0 where
  pub from : Text
  pub to : Text

pub data Promoted : Type 0 where
  promoted : PromoteSummary → Promoted
  refused : PromoteError → Promoted

abbrev pub Run : Type 0
Run = Disk → Promoted × Disk

abbrev pub fail : PromoteError → Run
fail e d = (refused e, d)

-- An operation that fails as a whole or is done, and what comes after it.
abbrev pub attempt_with : List Bool → (Disk → Disk) → Run → Run
attempt_with [] f next d = next (f (record d { faults = [] }))
attempt_with (true ∷ faults) f next d = (refused failed, record d { faults = faults })
attempt_with (false ∷ faults) f next d = next (f (record d { faults = faults }))

abbrev pub attempt : (Disk → Disk) → Run → Run
attempt f next d = attempt_with d.faults f next d

abbrev pub put : Text → Option Text → Disk → Disk
put place contents d = record d { files = λ p. if text_eq p place then contents else d.files p }

abbrev pub call : GitCall → Disk → Disk
call c d = record d { git = c ∷ d.git }

-- A read gives nothing where it fails.
abbrev pub read_with : List Bool → Text → (Option Text → Run) → Run
read_with [] place next d = next (d.files place) (record d { faults = [] })
read_with (true ∷ faults) place next d = next none (record d { faults = faults })
read_with (false ∷ faults) place next d = next (d.files place) (record d { faults = faults })

abbrev pub read_file : Text → (Option Text → Run) → Run
read_file place next d = read_with d.faults place next d
