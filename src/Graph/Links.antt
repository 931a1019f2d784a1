-- ===== src/Graph/Links.antt =====
-- `extract_wikilink_names` of graph.rs.
use wkp.Base.{
  ℕ, zero, suc, ◌+◌, ◌*◌, ◌≤◌, ◌<◌, ◌≡◌, refl, ap, ◌∙◌, inl, inr, Bool, true, false, not, ◌&&◌,
  ◌||◌, Option, none, some, List, [], ◌∷◌, ◌++◌, map, append_assoc, arith, ◌==◌, if◌then◌else◌,
  Option-cases, &&-elim, length, flatten, all, length-append,
}
use wkp.Str.{Text, split_by, trim}
use wkp.Str.Laws.{has_no, starts_solid, ends_solid, trim_solid}

-- `find` of a character twice: what stands before it, and what stands behind it.
unfoldable pub find_twice : ℕ → Text → Option (Text × Text)
find_twice q [] = none
find_twice q (c ∷ []) = none
find_twice q (c ∷ d ∷ cs) =
    let later = find_twice q (d ∷ cs) in
    if c == q && d == q
    then some ([], cs)
    else elim later [ none ↦ none | some (a, b) ↦ some (c ∷ a, b) ]

abbrev pub is_name_end : ℕ → Bool
is_name_end c = c == b'|' || c == b'#'

abbrev pub first_or : Text → List Text → Text
first_or inner [] = inner
first_or inner (piece ∷ pieces) = piece

unfoldable pub link_name : Text → Text
link_name inner = trim (first_or inner (split_by is_name_end inner))

abbrev pub push_name : Text → List Text → List Text
push_name [] names = names
push_name (c ∷ cs) names = (c ∷ cs) ∷ names

-- The loop over `rest`, with fuel for its rounds.
unfoldable pub names_from : ℕ → Text → List Text
names_from zero rest = []
names_from (suc fuel) rest = elim (find_twice b'[' rest) [
  | none ↦ []
  | some (before, after) ↦ elim (find_twice b']' after) [
    | none ↦ []
    | some (inner, rest) ↦ push_name (link_name inner) (names_from fuel rest)
  ]
]

unfoldable pub extract_wikilink_names : Text → List Text
unfolding names_from
extract_wikilink_names body = names_from (length body) body

find_twice-shorter : (q : ℕ) (t a b : Text) → find_twice q t ≡ some (a, b) → length b + 2 ≤ length t
unfolding find_twice
find_twice-shorter q [] a b h = cc
find_twice-shorter q (c ∷ []) a b h = cc
find_twice-shorter q (c ∷ d ∷ cs) a b h = elim (Option-cases (find_twice q (d ∷ cs))) [
  | inl e ↦ ground (arith, h, e)
  | inr ((a', b'), e) ↦
      let shorter = find_twice-shorter q (d ∷ cs) a' b' e in ground (arith, h, e, shorter)
]

-- The rounds of the loop from a text to its end, with no fuel: it ends where no `[[` or no `]]` is
-- left, and goes on behind the `]]` with the name in between, if there is one.
pub data Rounds : ℕ → Text → List Text → Type 0 where
  no_opening : {rest : Text} → find_twice b'[' rest ≡ none → Rounds 0 rest []
  no_closing :
      {rest before after : Text}
      → find_twice b'[' rest ≡ some (before, after)
      → find_twice b']' after ≡ none
      → Rounds 0 rest []
  goes_on :
      {rest before after inner rest' : Text} {n : ℕ} {names : List Text}
      → find_twice b'[' rest ≡ some (before, after)
      → find_twice b']' after ≡ some (inner, rest')
      → Rounds n rest' names
      → Rounds (suc n) rest (push_name (link_name inner) names)

names_from-Rounds :
    (fuel : ℕ) (t : Text)
    → length t ≤ fuel
    → (n : ℕ) × (4 * n ≤ length t) × Rounds n t (names_from fuel t)
unfolding names_from find_twice
names_from-Rounds zero [] h = (0, omega arith, no_opening refl)
names_from-Rounds zero (c ∷ t) h = absurd (omega arith)
names_from-Rounds (suc fuel) t h = elim (Option-cases (find_twice b'[' t)) [
  | inl e ↦ (0, omega arith, rw (names_from, e) (no_opening e))
  | inr ((before, after), e) ↦ elim (Option-cases (find_twice b']' after)) [
    | inl e' ↦ (0, omega arith, rw (names_from, e, e') (no_closing e e'))
    | inr ((inner, rest), e') ↦
        let first = find_twice-shorter b'[' t before after e in
        let second = find_twice-shorter b']' after inner rest e' in
        let (n, few, rounds) = names_from-Rounds fuel rest (omega arith) in
        (suc n, omega arith, rw (names_from, e, e') (goes_on e e' rounds))
  ]
]

-- The loop comes to its end on every text, and the names are those that it has pushed. It goes
-- round at most once for each four characters of the text, also where a link has no name.
pub extract_wikilink_names-Rounds :
    (body : Text) → (n : ℕ) × (4 * n ≤ length body) × Rounds n body (extract_wikilink_names body)
unfolding extract_wikilink_names
extract_wikilink_names-Rounds body = names_from-Rounds (length body) body (omega arith)

find_twice-absent : (q : ℕ) (t : Text) → has_no q t ≡ true → find_twice q t ≡ none
unfolding find_twice
find_twice-absent q [] h = refl
find_twice-absent q (c ∷ []) h = refl
find_twice-absent q (c ∷ d ∷ cs) h = ground (arith, find_twice-absent q (d ∷ cs), h)

find_twice-found :
    (q : ℕ) (t rest : Text) → has_no q t ≡ true → find_twice q (t ++ q ∷ q ∷ rest) ≡ some (t, rest)
unfolding find_twice
find_twice-found q [] rest h = ground arith
find_twice-found q (c ∷ []) rest h = ground (arith, h)
find_twice-found q (c ∷ d ∷ cs) rest h = ground (arith, find_twice-found q (d ∷ cs) rest, h)

-- What a document has before its next link, the name, and what follows the name in the link.
pub record Link : Type 0 where
  pub plain : Text
  pub name : Text
  pub alias : Text

abbrev pub show_link : Link → Text
show_link l = l.plain ++ (b'[' ∷ b'[' ∷ ((l.name ++ l.alias) ++ (b']' ∷ b']' ∷ [])))

abbrev starts_alias : Text → Bool
starts_alias [] = true
starts_alias (c ∷ cs) = is_name_end c

abbrev pub is_link : Link → Bool
is_link l =
    has_no b'[' l.plain
    && has_no b']' (l.name ++ l.alias)
    && starts_solid l.name
    && ends_solid l.name
    && all (λ c. not (is_name_end c)) l.name
    && starts_alias l.alias

split_by-name :
    (name alias : Text)
    → all (λ c. not (is_name_end c)) name ≡ true
    → starts_alias alias ≡ true
    → (pieces : List Text) × (split_by is_name_end (name ++ alias) ≡ name ∷ pieces)
unfolding split_by
split_by-name [] [] h k = ([], refl)
split_by-name [] (c ∷ alias) h k = (split_by is_name_end alias, rw k refl)
split_by-name (c ∷ name) alias h k =
    let (pieces, e) = split_by-name name alias (ground (arith, h)) k in
    let inside : is_name_end c ≡ false = ground (arith, h) in (pieces, rw (inside, e) refl)

push_name-solid :
    (name : Text) (names : List Text)
    → starts_solid name ≡ true
    → push_name name names ≡ name ∷ names
push_name-solid [] names h = cc
push_name-solid (c ∷ cs) names h = refl

link_name-link : (l : Link) → is_link l ≡ true → link_name (l.name ++ l.alias) ≡ l.name
unfolding link_name
link_name-link l h =
    let (pieces, e) = split_by-name l.name l.alias (ground (arith, h)) (ground (arith, h)) in
    rw e (trim_solid l.name (ground (arith, h)) (ground (arith, h)))

show_link-append :
    (l : Link) (rest : Text)
    → show_link l ++ rest ≡ l.plain ++ (b'[' ∷ b'[' ∷ ((l.name ++ l.alias) ++ (b']' ∷ b']' ∷ rest)))
show_link-append l rest =
    append_assoc l.plain (b'[' ∷ b'[' ∷ ((l.name ++ l.alias) ++ (b']' ∷ b']' ∷ []))) rest
    ∙ ap (λ t. l.plain ++ (b'[' ∷ b'[' ∷ t))
        (append_assoc (l.name ++ l.alias) (b']' ∷ b']' ∷ []) rest)

show_link-longer : (l : Link) (rest : Text) → length rest < length (show_link l ++ rest)
show_link-longer l rest =
    let inner = length-append (l.name ++ l.alias) (b']' ∷ b']' ∷ rest) in
    let whole =
      length-append l.plain (b'[' ∷ b'[' ∷ ((l.name ++ l.alias) ++ (b']' ∷ b']' ∷ rest))) in
    rw (show_link-append l rest) (omega (arith, inner, whole))

names_from-link :
    (l : Link) (rest : Text) (fuel : ℕ)
    → is_link l ≡ true
    → names_from (suc fuel) (show_link l ++ rest) ≡ l.name ∷ names_from fuel rest
unfolding names_from
names_from-link l rest fuel h =
    let inner = l.name ++ l.alias in
    let plain : has_no b'[' l.plain ≡ true = ground (arith, h) in
    let closed : has_no b']' inner ≡ true = ground (arith, h) in
    let opens = find_twice-found b'[' l.plain (inner ++ (b']' ∷ b']' ∷ rest)) plain in
    let closes = find_twice-found b']' inner rest closed in
    rw (show_link-append l rest, names_from, opens, closes, link_name-link l h)
      (push_name-solid l.name (names_from fuel rest) (ground (arith, h)))

names_from-links :
    (links : List Link) (tail : Text) (fuel : ℕ)
    → length (flatten (map show_link links) ++ tail) ≤ fuel
    → all is_link links ≡ true
    → has_no b'[' tail ≡ true
    → names_from fuel (flatten (map show_link links) ++ tail) ≡ map (λ (l : Link). l.name) links
unfolding names_from find_twice
names_from-links [] tail zero e h k = refl
names_from-links [] tail (suc fuel) e h k = rw (names_from, find_twice-absent b'[' tail k) refl
names_from-links (l ∷ links) tail zero e h k =
    let longer = show_link-longer l (flatten (map show_link links) ++ tail) in
    absurd (omega (arith, longer, (rw append_assoc at e)))
names_from-links (l ∷ links) tail (suc fuel) e h k =
    let rest = flatten (map show_link links) ++ tail in
    let longer = show_link-longer l rest in
    let (first, others) = &&-elim (is_link l) (all is_link links) h in
    let apart = append_assoc (show_link l) (flatten (map show_link links)) tail in
    ap (names_from (suc fuel)) apart
    ∙ names_from-link l rest fuel first
    ∙ ap (λ names. l.name ∷ names)
        (names_from-links links tail fuel (omega (arith, longer, ap length apart)) others k)

-- In a document of links and of plain texts with no `[`, the extracted names are the names of the
-- links in their order, where the names are trimmed, not empty, and have no `]`, `|` or `#`, and what
-- follows a name in its link is empty, or an alias or a section that has no `]`.
pub extract_wikilink_names_lem :
    (links : List Link) (tail : Text)
    → all is_link links ≡ true
    → has_no b'[' tail ≡ true
    → extract_wikilink_names (flatten (map show_link links) ++ tail)
      ≡ map (λ (l : Link). l.name) links
unfolding extract_wikilink_names
extract_wikilink_names_lem links tail h k = names_from-links links tail _ (omega arith) h k
