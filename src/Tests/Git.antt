-- ===== src/Tests/Git.antt =====
-- Search budgets, signers and changes: index/search.rs, allowed_signers.rs and changes.rs.
use wkp.Base.{ℕ, ◌%◌, ◌≡◌, refl, ◌≢◌, ◌↔◌, true, some, List, [], ◌∷◌, ◌++◌, ◌==◌, all}
use wkp.Str.{Text, codes, trim_end_by, is_whitespace}
use wkp.Search.{SearchHit, apply_budget, sanitize_fts_query_joined}
use wkp.Search.Budget.{Kept, apply_budget_lem}
use wkp.Search.Quotes.{quotes, quotes-sanitize_fts_query_joined}
use wkp.Git.Signers.{SignerRole, from_principal, parse_signer_line, parse_signer_line_iff}
use wkp.Git.Changes.{no_changes, parse_porcelain_v2}
use wkp.Git.Changes.Entries.{
  Entry, changed, moved, untracked, deleted, show_entries, apply_entries, is_line,
  parse_porcelain_v2_lem,
}

abbrev hit_of : ℕ → SearchHit ℕ
hit_of n = record { tokens = n; item = n }

apply_budget_lem_example :
    (kept : List (SearchHit ℕ)) × (apply_budget (hit_of 9 ∷ hit_of 2 ∷ hit_of 5 ∷ []) (some 12)
      ≡ hit_of 9 ∷ kept)
    × Kept 12 (hit_of 9).tokens (hit_of 2 ∷ hit_of 5 ∷ []) kept
apply_budget_lem_example = apply_budget_lem 12 (hit_of 9) (hit_of 2 ∷ hit_of 5 ∷ [])

quotes-sanitize_fts_query_joined_example :
    quotes (sanitize_fts_query_joined (codes "say \"hi\" now") (codes " OR ")) % 2 ≡ 0
quotes-sanitize_fts_query_joined_example =
    quotes-sanitize_fts_query_joined (codes "say \"hi\" now") (codes " OR ") refl

parse_signer_line_iff_example :
    (parse_signer_line (codes "G\thuman:ann\n") ≡ some (codes "human:ann", SignerRole.human)) ↔ (
      (trim_end_by (λ c. c == b'\n') (codes "G\thuman:ann\n") ≡ codes "G\t" ++ codes "human:ann")
      × (codes "human:ann" ≢ [])
      × (SignerRole.human ≡ from_principal (codes "human:ann")))
parse_signer_line_iff_example =
    parse_signer_line_iff (codes "G\thuman:ann\n") (codes "human:ann") SignerRole.human

abbrev modes : List Text
modes =
    codes "N..." ∷ codes "100644" ∷ codes "100644" ∷ codes "100644" ∷ codes "a1" ∷ codes "b2" ∷ []

abbrev entries : List Entry
entries =
    changed deleted b'.' b'D' modes (codes "a b.md")
    ∷ moved (codes "R." ∷ modes ++ codes "R100" ∷ []) (codes "new.md") (codes "old.md")
    ∷ untracked (codes "c.md")
    ∷ []

entries-lines : all is_line entries ≡ true
unfolding is_whitespace
entries-lines = refl

parse_porcelain_v2_lem_example :
    parse_porcelain_v2 (show_entries entries) ≡ apply_entries entries no_changes
parse_porcelain_v2_lem_example = parse_porcelain_v2_lem entries entries-lines
