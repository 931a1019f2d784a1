-- ===== src/Tests/Graph.antt =====
-- References: graph.rs.
use wkp.Base.{
  ℕ, ◌+◌, ◌*◌, ◌%◌, ◌≤◌, ◌≡◌, refl, none, some, List, [], ◌∷◌, ◌++◌, map, ◌==◌, if◌then◌else◌,
  length, flatten,
}
use wkp.Str.{
  Text, codes, join, split_by, text_eq, strip_prefix, is_whitespace, trim_start_by, trim_end_by,
}
use wkp.Graph.Links.{
  Link, show_link, extract_wikilink_names, extract_wikilink_names_lem,
  extract_wikilink_names-Rounds, Rounds, names_from, find_twice, link_name,
}
use wkp.Graph.Paths.{normalize_ref, ref_between, components, normalize_path, show_path, climb}
use wkp.Graph.Paths.Resolve.{ups}
use wkp.Graph.Paths.Refs.{normalize_ref_lem, normalize_ref_outside}

abbrev links : List Link
links =
    record { plain = codes "see "; name = codes "db setup"; alias = codes "|the notes" }
    ∷ record { plain = codes " and "; name = codes "x"; alias = [] }
    ∷ []

extract_wikilink_names_lem_example :
    extract_wikilink_names (flatten (map show_link links) ++ codes "!")
    ≡ map (λ (l : Link). l.name) links
unfolding is_whitespace
extract_wikilink_names_lem_example = extract_wikilink_names_lem links (codes "!") refl refl

-- An empty link, a link that is not closed, and a section.
odd_links : extract_wikilink_names (codes "[[]] [[a#b]] [[c") ≡ codes "a" ∷ []
unfolding extract_wikilink_names names_from find_twice link_name split_by is_whitespace
    trim_start_by trim_end_by
odd_links = refl

abbrev no_dirs : List Text
no_dirs = []

normalize_ref_lem_example :
    normalize_ref
      (join (codes "/") ((codes "a" ∷ [] ++ codes "b" ∷ []) ++ codes "f.md" ∷ []))
      (join (codes "/") (ups 1 ++ codes "c" ∷ codes "g.md" ∷ []))
    ≡ some (join (codes "/") (codes "a" ∷ [] ++ codes "c" ∷ codes "g.md" ∷ []))
unfolding text_eq
normalize_ref_lem_example =
    normalize_ref_lem (codes "a" ∷ []) (codes "b" ∷ []) (codes "f.md") (codes "c")
      (codes "g.md" ∷ []) refl refl

normalize_ref_outside_example :
    normalize_ref
      (join (codes "/") (no_dirs ++ codes "a.md" ∷ []))
      (join (codes "/") (ups (length no_dirs + 2) ++ codes "x" ∷ []))
    ≡ (if 2 % 2 == 0 then some (join (codes "/") (codes "x" ∷ [])) else none)
unfolding text_eq
normalize_ref_outside_example =
    normalize_ref_outside no_dirs (codes "a.md") 2 (codes "x") [] refl refl

-- The same reference, as the program gets it, and one that is absolute.
refs_run :
    (normalize_ref (codes "a.md") (codes "../../x") ≡ some (codes "x"))
    × (normalize_ref (codes "a.md") (codes "../x") ≡ none)
    × (normalize_ref (codes "a/b.md") (codes "/c/./d") ≡ some (codes "/c/d"))
unfolding normalize_ref ref_between components normalize_path show_path climb text_eq strip_prefix
    split_by join
refs_run = (refl, refl, refl)

extract_wikilink_names-Rounds_example :
    (n : ℕ) × (4 * n ≤ 14)
    × Rounds n (codes "[[]] a [[b|c]]") (extract_wikilink_names (codes "[[]] a [[b|c]]"))
extract_wikilink_names-Rounds_example = extract_wikilink_names-Rounds (codes "[[]] a [[b|c]]")
