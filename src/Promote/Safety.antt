-- ===== src/Promote/Safety.antt =====
-- What a promotion does to the files of the store, whatever fails.
pub mod Done
use wkp.Base.{
  ℕ, zero, suc, ◌+◌, ◌-◌, ◌*◌, ◌/◌, ◌%◌, ◌^◌, ◌≤◌, ◌<◌, min, max, String, ◌≡◌, refl, sym, ap, ap₂,
  ◌∙◌, subst, ◌≡⟨◌⟩◌, ◌∎, ◌≢◌, ◌↔◌, ◌⊎◌, inl, inr, Bool, true, false, not, ◌&&◌, ◌||◌, Option, none,
  some, List, [], ◌∷◌, ◌++◌, map, append-nil, append_assoc, arith, ltb, leb, ◌==◌, if◌then◌else◌,
  ==_iff, Bool-cases, Option-cases, &&-elim, length, take, drop, flatten, filter, take_while, all,
  any, is_empty, length-append, take-append, drop-append, filter_map, or_else, is_some, map_option,
  ◌>>=◌, all-append, drop_past, push_some,
}
use wkp.Str.{Text, codes, text_eq, strip_prefix}
use wkp.Str.Laws.{text_eq_iff, text_eq_refl}
use wkp.Promote.{PromoteOptions, read_promote_auto_list}
use wkp.Base.Branch.{branch}
use wkp.Promote.Disk.{
  not_allowed, not_in_inbox, GitCall, Disk, PromoteError, PromoteSummary, Promoted, promoted,
  refused, Run, fail, attempt, attempt_with, put, call, read_file, read_with, failed,
  remove_from_index, signed_commit,
}
use wkp.Promote.Run.{
  Store, Destination, atomic_write, subject_of, finish, commit_move, remove_source, move_to,
  move_or_fail, destination_of, promote_contents, is_allowed, run_promote,
}

attempt_with_rule :
    (P : Promoted × Disk → Type 0)
    → (faults : List Bool) → (f : Disk → Disk) → (next : Run) → (d : Disk)
    → ((fs : List Bool) → P (refused failed, record d { faults = fs }))
    → ((fs : List Bool) → P (next (f (record d { faults = fs }))))
    → P (attempt_with faults f next d)
attempt_with_rule P [] f next d broken ran = ran []
attempt_with_rule P (true ∷ fs) f next d broken ran = broken fs
attempt_with_rule P (false ∷ fs) f next d broken ran = ran fs

-- What holds where the operation fails and where it is done.
attempt_rule :
    (P : Promoted × Disk → Type 0)
    → (f : Disk → Disk) → (next : Run) → (d : Disk)
    → ((fs : List Bool) → P (refused failed, record d { faults = fs }))
    → ((fs : List Bool) → P (next (f (record d { faults = fs }))))
    → P (attempt f next d)
attempt_rule P f next d = attempt_with_rule P d.faults f next d

read_with_rule :
    (P : Promoted × Disk → Type 0)
    → (faults : List Bool) → (place : Text) → (next : Option Text → Run) → (d : Disk)
    → ((fs : List Bool) → P (next none (record d { faults = fs })))
    → ((fs : List Bool) → P (next (d.files place) (record d { faults = fs })))
    → P (read_with faults place next d)
read_with_rule P [] place next d broken ran = ran []
read_with_rule P (true ∷ fs) place next d broken ran = broken fs
read_with_rule P (false ∷ fs) place next d broken ran = ran fs

read_rule :
    (P : Promoted × Disk → Type 0)
    → (place : Text) → (next : Option Text → Run) → (d : Disk)
    → ((fs : List Bool) → P (next none (record d { faults = fs })))
    → ((fs : List Bool) → P (next (d.files place) (record d { faults = fs })))
    → P (read_file place next d)
read_rule P place next d = read_with_rule P d.faults place next d

-- Each text is where it was, or it was the item at `src` and is somewhere else.
abbrev pub KeepsTexts : (Text → Option Text) → Text → (Text → Option Text) → Type 0
KeepsTexts files src files' =
    (place contents : Text)
    → files place ≡ some contents
    → (files' place ≡ some contents)
      ⊎ ((place ≡ src) × ((dest : Text) × (files' dest ≡ some contents)))

same-KeepsTexts : (files : Text → Option Text) (src : Text) → KeepsTexts files src files
same-KeepsTexts files src place contents h = inl h

-- A text is written where none was.
written_other :
    (d : Disk) (dest contents place c : Text)
    → d.files dest ≡ none
    → d.files place ≡ some c
    → (put dest (some contents) d).files place ≡ some c
written_other d dest contents place c free h = elim (Bool-cases (text_eq place dest)) [
  | inl e ↦
      let same : place ≡ dest = (text_eq_iff place dest).0 e in
      let gone : none ≡ some c = sym free ∙ ap d.files (sym same) ∙ h in
      absurd (ground (arith, gone))
  | inr e ↦ rw e h
]

apart_of :
    (d : Disk) (src dest contents : Text)
    → d.files dest ≡ none
    → d.files src ≡ some contents
    → text_eq dest src ≡ false
apart_of d src dest contents free there = elim (Bool-cases (text_eq dest src)) [
  | inr e ↦ e
  | inl e ↦
      let one : dest ≡ src = (text_eq_iff dest src).0 e in
      let gone : none ≡ some contents = sym free ∙ ap d.files one ∙ there in
      absurd (ground (arith, gone))
]

-- Then the item is taken away.
moved-KeepsTexts :
    (d : Disk) (src dest contents : Text)
    → d.files dest ≡ none
    → d.files src ≡ some contents
    → KeepsTexts d.files src (put src none (put dest (some contents) d)).files
moved-KeepsTexts d src dest contents free there place c h = elim (Bool-cases (text_eq place src)) [
  | inl e ↦
      let same : place ≡ src = (text_eq_iff place src).0 e in
      let content : some contents ≡ some c = sym there ∙ ap d.files (sym same) ∙ h in
      inr (same, (dest, rw (apart_of d src dest contents free there, text_eq_refl dest) content))
  | inr e ↦ inl (rw e (written_other d dest contents place c free h))
]

commit_move-KeepsTexts :
    (files : Text → Option Text) (src : Text) (opts : PromoteOptions) (dest : Text) (d : Disk)
    → KeepsTexts files src d.files
    → KeepsTexts files src (commit_move opts dest d).1.files
commit_move-KeepsTexts files src opts dest d h =
    let P = λ (x : Promoted × Disk). KeepsTexts files src x.1.files in
    let commit =
      signed_commit dest (subject_of opts.inbox_path dest) opts.principal opts.signing_key_file in
    attempt_rule P (call (remove_from_index opts.inbox_path))
      (attempt (call commit) (finish opts dest)) d (λ fs. h)
      λ fs.
        attempt_rule P (call commit) (finish opts dest)
          (call (remove_from_index opts.inbox_path) (record d { faults = fs })) (λ fs'. h)
          (λ fs'. h)

move_to-KeepsTexts :
    (store : Store) (opts : PromoteOptions) (contents dest : Text) (d : Disk)
    → d.files (store.resolve opts.inbox_path) ≡ some contents
    → KeepsTexts d.files
        (store.resolve opts.inbox_path)
        (move_to store opts contents dest d).1.files
unfolding move_to atomic_write
move_to-KeepsTexts store opts contents dest d there =
    let src = store.resolve opts.inbox_path in
    let place = store.resolve dest in
    let P = λ (x : Promoted × Disk). KeepsTexts d.files src x.1.files in
    elim (Option-cases (d.files place)) [
      | inr (c, e) ↦ rw (move_to, e) (same-KeepsTexts d.files src)
      | inl free ↦
          let written : KeepsTexts d.files src (put place (some contents) d).files =
            λ p c h. inl (written_other d place contents p c free h) in
          let moved = moved-KeepsTexts d src place contents free there in
          let same = same-KeepsTexts d.files src in
          let write = put place (some contents) in
          rw (move_to, free)
            (attempt_rule P (λ d. d)
              (attempt (λ d. d) (attempt write (remove_source store opts dest))) d (λ fs. same)
              λ fs.
                attempt_rule P (λ d. d) (attempt write (remove_source store opts dest))
                  (record d { faults = fs }) (λ fs. same)
                  λ fs.
                    attempt_rule P write (remove_source store opts dest) (record d { faults = fs })
                      (λ fs. same)
                      λ fs.
                        attempt_rule P (put src none) (commit_move opts dest)
                          (write (record d { faults = fs })) (λ fs. written)
                          λ fs.
                            commit_move-KeepsTexts d.files src opts dest
                              (put src none (write (record d { faults = fs }))) moved)
    ]

move_or_fail-KeepsTexts :
    (store : Store) (opts : PromoteOptions) (contents : Text) (o : Destination) (d : Disk)
    → d.files (store.resolve opts.inbox_path) ≡ some contents
    → KeepsTexts d.files
        (store.resolve opts.inbox_path)
        (move_or_fail store opts contents o d).1.files
move_or_fail-KeepsTexts store opts contents (inl dest) d there =
    move_to-KeepsTexts store opts contents dest d there
move_or_fail-KeepsTexts store opts contents (inr e) d there =
    same-KeepsTexts d.files (store.resolve opts.inbox_path)

contents-KeepsTexts :
    (store : Store) (opts : PromoteOptions) (o : Option Text) (d : Disk)
    → d.files (store.resolve opts.inbox_path) ≡ o
    → KeepsTexts d.files (store.resolve opts.inbox_path) (promote_contents store opts o d).1.files
unfolding promote_contents
contents-KeepsTexts store opts none d there =
    same-KeepsTexts d.files (store.resolve opts.inbox_path)
contents-KeepsTexts store opts (some contents) d there =
    move_or_fail-KeepsTexts store opts contents (destination_of store opts contents) d there

-- Whichever operation fails, a promotion loses and overwrites no text file of the store: each is
-- where it was, except that the item itself may be, whole, at another place.
pub run_promote-KeepsTexts :
    (store : Store) (opts : PromoteOptions) (d : Disk)
    → KeepsTexts d.files (store.resolve opts.inbox_path) (run_promote store opts d).1.files
unfolding run_promote promote_contents
run_promote-KeepsTexts store opts d =
    let src = store.resolve opts.inbox_path in
    let same = same-KeepsTexts d.files src in
    let P = λ (x : Promoted × Disk). KeepsTexts d.files src x.1.files in
    let config = store.resolve (codes ".wkp/config.toml") in
    let read_item = read_file src (promote_contents store opts) in
    let guarded : Option Text → Run = λ c.
      if is_allowed opts.principal (read_promote_auto_list c)
      then read_item
      else fail not_allowed in
    let item : (fs : List Bool) → P (read_item (record d { faults = fs })) = λ fs.
      read_rule P src (promote_contents store opts) (record d { faults = fs }) (λ fs'. same)
        (λ fs'. contents-KeepsTexts store opts (d.files src) (record d { faults = fs' }) refl) in
    let goes_on : (c : Option Text) (fs : List Bool) → P (guarded c (record d { faults = fs })) =
      λ c fs.
        branch (λ (run : Run). P (run (record d { faults = fs })))
          (is_allowed opts.principal (read_promote_auto_list c)) read_item (fail not_allowed)
          (λ _. item fs) (λ _. same) in
    branch (λ (run : Run). P (run d)) (is_some (strip_prefix (codes "inbox/") opts.inbox_path))
      (read_file config guarded) (fail not_in_inbox)
      (λ _. read_rule P config guarded d (goes_on none) (goes_on (d.files config))) (λ _. same)
