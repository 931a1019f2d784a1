-- ===== src/Promote/Safety/Done.antt =====
-- What a promotion that succeeds has done.
use wkp.Base.{
  ◌≡◌, refl, subst, inl, inr, Bool, true, Option, none, some, List, ◌∷◌, arith, if◌then◌else◌,
  Option-cases, is_some,
}
use wkp.Base.Branch.{branch}
use wkp.Str.{Text, codes, strip_prefix}
use wkp.Str.Laws.{text_eq_refl}
use wkp.Promote.{PromoteOptions, read_promote_auto_list}
use wkp.Promote.Disk.{
  not_allowed, not_in_inbox, GitCall, Disk, PromoteSummary, Promoted, promoted, Run, fail, attempt,
  put, call, read_file, remove_from_index, signed_commit,
}
use wkp.Promote.Run.{
  Store, Destination, atomic_write, subject_of, finish, commit_move, remove_source, move_to,
  move_or_fail, destination_of, promote_contents, is_allowed, run_promote,
}
use wkp.Promote.Safety.{attempt_rule, read_rule, apart_of}

-- The item was at its path and is at a place that was free, as it was, in one commit.
pub record IsMoved (store : Store) (opts : PromoteOptions) (files : Text → Option Text)
    (git : List GitCall) (s : PromoteSummary) (d' : Disk) : Type 0 where
  pub contents : Text
  pub source : files (store.resolve opts.inbox_path) ≡ some contents
  pub free : files (store.resolve s.to) ≡ none
  pub written : d'.files (store.resolve s.to) ≡ some contents
  pub removed : d'.files (store.resolve opts.inbox_path) ≡ none
  pub committed :
      d'.git
      ≡ signed_commit s.to (subject_of opts.inbox_path s.to) opts.principal opts.signing_key_file
        ∷ remove_from_index opts.inbox_path
        ∷ git

abbrev Done : Store → PromoteOptions → Disk → PromoteSummary → Promoted × Disk → Type 0
Done store opts d s (r, d') = r ≡ promoted s → IsMoved store opts d.files d.git s d'

move_to-Done :
    (store : Store) (opts : PromoteOptions) (contents dest : Text) (s : PromoteSummary) (d : Disk)
    → d.files (store.resolve opts.inbox_path) ≡ some contents
    → Done store opts d s (move_to store opts contents dest d)
unfolding move_to atomic_write
move_to-Done store opts contents dest s d there =
    let src = store.resolve opts.inbox_path in
    let place = store.resolve dest in
    let P = λ (x : Promoted × Disk). (x.0 ≡ promoted s → IsMoved store opts d.files d.git s x.1) in
    let write = put place (some contents) in
    let remove = call (remove_from_index opts.inbox_path) in
    let commit =
      call (
        signed_commit dest (subject_of opts.inbox_path dest) opts.principal
          opts.signing_key_file) in
    let write_on = attempt write (remove_source store opts dest) in
    elim (Option-cases (d.files place)) [
      | inr (c, e) ↦ rw (move_to, e) (λ h. cc)
      | inl free ↦
          let apart = apart_of d src place contents free there in
          let moved : (fs : List Bool)
              → P (
                  finish opts dest
                    (commit (remove (put src none (write (record d { faults = fs })))))) =
            λ fs h.
              let same : dest ≡ s.to = cc in
              subst
                (λ t.
                  IsMoved store opts d.files d.git (record s { to = t })
                    (commit (remove (put src none (write (record d { faults = fs }))))))
                same
                (record {
                  contents = contents;
                  source = there;
                  free = free;
                  written = rw (apart, text_eq_refl place) refl;
                  removed = rw (text_eq_refl src) refl;
                  committed = refl;
                }) in
          rw (move_to, free)
            (attempt_rule P (λ d. d) (attempt (λ d. d) write_on) d (λ fs h. cc)
              λ fs.
                attempt_rule P (λ d. d) write_on (record d { faults = fs }) (λ fs h. cc)
                  λ fs.
                    attempt_rule P write (remove_source store opts dest) (record d { faults = fs })
                      (λ fs h. cc)
                      λ fs.
                        attempt_rule P (put src none) (commit_move opts dest)
                          (write (record d { faults = fs })) (λ fs h. cc)
                          λ fs.
                            attempt_rule P remove (attempt commit (finish opts dest))
                              (put src none (write (record d { faults = fs }))) (λ fs h. cc)
                              λ fs.
                                attempt_rule P commit (finish opts dest)
                                  (remove (put src none (write (record d { faults = fs }))))
                                  (λ fs h. cc) moved)
    ]

destination-Done :
    (store : Store) (opts : PromoteOptions) (contents : Text) (o : Destination) (s : PromoteSummary)
    (d : Disk)
    → d.files (store.resolve opts.inbox_path) ≡ some contents
    → Done store opts d s (move_or_fail store opts contents o d)
destination-Done store opts contents (inl dest) s d there =
    move_to-Done store opts contents dest s d there
destination-Done store opts contents (inr e) s d there = λ h. cc

contents-Done :
    (store : Store) (opts : PromoteOptions) (o : Option Text) (s : PromoteSummary) (d : Disk)
    → d.files (store.resolve opts.inbox_path) ≡ o
    → Done store opts d s (promote_contents store opts o d)
unfolding promote_contents
contents-Done store opts none s d there = λ h. cc
contents-Done store opts (some contents) s d there =
    destination-Done store opts contents (destination_of store opts contents) s d there

-- Who may promote what. Only the start of the path's text is looked at.
pub record MayPromote (store : Store) (opts : PromoteOptions) (d : Disk) : Type 0 where
  pub in_inbox : is_some (strip_prefix (codes "inbox/") opts.inbox_path) ≡ true
  pub allowed :
      is_allowed opts.principal
        (read_promote_auto_list (d.files (store.resolve (codes ".wkp/config.toml"))))
      ≡ true

-- With an empty list only a human is allowed.
allowed_more :
    (principal : Text) (c : Option Text)
    → is_allowed principal (read_promote_auto_list none) ≡ true
    → is_allowed principal (read_promote_auto_list c) ≡ true
unfolding is_allowed read_promote_auto_list
allowed_more principal c h = ground (arith, h)

unread :
    (store : Store) (opts : PromoteOptions) (s : PromoteSummary) (d : Disk)
    → (promote_contents store opts none d).0 ≡ promoted s
    → ⊥
unfolding promote_contents
unread store opts s d h = ground (arith, h)

-- A promotion that succeeds was of a path whose text starts with `inbox/`, by a human or by a
-- principal of the store's `[promote] auto` list; it has moved the text of the item, as it was, to a place where no
-- text was, and has given git the removal and one signed commit.
pub run_promote_done :
    (store : Store) (opts : PromoteOptions) (s : PromoteSummary) (d : Disk)
    → (run_promote store opts d).0 ≡ promoted s
    → MayPromote store opts d × IsMoved store opts d.files d.git s (run_promote store opts d).1
unfolding run_promote
run_promote_done store opts s d =
    let src = store.resolve opts.inbox_path in
    let P = λ (x : Promoted × Disk).
      (x.0 ≡ promoted s → MayPromote store opts d × IsMoved store opts d.files d.git s x.1) in
    let config = store.resolve (codes ".wkp/config.toml") in
    let read_item = read_file src (promote_contents store opts) in
    let guarded : Option Text → Run = λ c.
      if is_allowed opts.principal (read_promote_auto_list c)
      then read_item
      else fail not_allowed in
    let item : MayPromote store opts d
        → (fs : List Bool) → P (read_item (record d { faults = fs })) =
      λ may fs.
        read_rule P src (promote_contents store opts) (record d { faults = fs })
          (λ fs' h. absurd (unread store opts s (record d { faults = fs' }) h))
          (λ fs' h.
            (may, contents-Done store opts (d.files src) s (record d { faults = fs' }) refl h)) in
    let goes_on : (c : Option Text)
        → is_some (strip_prefix (codes "inbox/") opts.inbox_path) ≡ true
        → (is_allowed opts.principal (read_promote_auto_list c) ≡ true
            → is_allowed opts.principal (read_promote_auto_list (d.files config)) ≡ true)
        → (fs : List Bool) → P (guarded c (record d { faults = fs })) =
      λ c inbox more fs.
        branch (λ (run : Run). P (run (record d { faults = fs })))
          (is_allowed opts.principal (read_promote_auto_list c)) read_item (fail not_allowed)
          (λ e. item (record { in_inbox = inbox; allowed = more e }) fs) (λ _ h. cc) in
    branch (λ (run : Run). P (run d)) (is_some (strip_prefix (codes "inbox/") opts.inbox_path))
      (read_file config guarded) (fail not_in_inbox)
      (λ inbox.
        read_rule P config guarded d
          (goes_on none inbox (allowed_more opts.principal (d.files config)))
          (goes_on (d.files config) inbox (λ e. e)))
      (λ _ h. cc)
