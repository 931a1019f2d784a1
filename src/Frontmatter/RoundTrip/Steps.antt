-- ===== src/Frontmatter/RoundTrip/Steps.antt =====
-- What the loop of `parse_block` makes of one rendered line.
use wkp.Base.{
  ℕ, String, ◌≡◌, refl, sym, ap, ◌∙◌, subst, inl, inr, Bool, true, false, not, ◌&&◌, ◌||◌, Option,
  none, some, List, [], ◌∷◌, ◌++◌, append-nil, append_assoc, arith, ◌==◌, Option-cases, is_empty,
}
use wkp.Str.{Text, codes, is_whitespace}
use wkp.Str.Laws.{
  has_no, has_no-append, ends_solid, ends_solid-append, split_once_first, trim_solid, trim_space,
}
use wkp.Frontmatter.Lines.{Line, logical_lines}
use wkp.Frontmatter.Values.{Parsing, split_key_value, apply_scalar_value}
use wkp.Frontmatter.Parse.{children_of, parse_lines, passed_by, round}
use wkp.Frontmatter.Render.{line, optional}
use wkp.Frontmatter.RoundTrip.Plain.{is_inline}
use wkp.Frontmatter.RoundTrip.Blocks.{
  IsBlock, IsBlock-nil, IsBlock-line, is_delimiter_line-solid, logical_lines-cons, logical_line-top,
}

-- The loop from the start of the text `b`.
abbrev pub run : Text → Parsing → Parsing
run b s = parse_lines 0 (logical_lines b) s

abbrev is_key_start : ℕ → Bool
is_key_start c =
    not (is_whitespace c)
    && (not (c == b'-') && (not (c == b'#') && not (c == b'\n' || c == b'\r')))

-- A key as the program writes it.
abbrev pub is_key : Text → Bool
is_key [] = false
is_key (c ∷ k) =
    is_key_start c && (ends_solid (c ∷ k) && (has_no b':' (c ∷ k) && has_no b'\n' (c ∷ k)))

abbrev pub pair_line : Text → Text → Text
pair_line k v = k ++ (b':' ∷ b' ' ∷ v)

pub ends_solid-pair_line : (k v : Text) → ends_solid v ≡ true → ends_solid (pair_line k v) ≡ true
ends_solid-pair_line k v h =
    ends_solid-append k (b':' ∷ b' ' ∷ v) (ends_solid-append (b':' ∷ b' ' ∷ []) v h)

pub has_no-pair_line :
    (k v : Text)
    → has_no b'\n' k ≡ true
    → has_no b'\n' v ≡ true
    → has_no b'\n' (pair_line k v) ≡ true
has_no-pair_line k v hk hv = has_no-append b'\n' k (b':' ∷ b' ' ∷ v) hk hv

pub split_key_value-pair_line :
    (k v : Text)
    → is_key k ≡ true
    → is_inline v ≡ true
    → split_key_value (pair_line k v) ≡ some (k, v)
unfolding split_key_value
split_key_value-pair_line [] v hk hv = cc
split_key_value-pair_line (c ∷ k) v hk hv =
    rw
      (
        split_once_first b':' (c ∷ k) (b' ' ∷ v) (ground arith),
        trim_solid (c ∷ k) (ground arith) (ground arith),
        trim_space v,
        trim_solid v (ground arith) (ground arith),
      )
      refl

is_empty-inline : (v : Text) → is_inline v ≡ true → is_empty v ≡ false
is_empty-inline [] h = cc
is_empty-inline (c ∷ v) h = refl

-- One round of the loop, at what `split_key_value` gives.
pub parse_lines-round :
    (l : Line) (rest : List Line) (s : Parsing) {pair : Option (Text × Text)}
    → split_key_value l.content ≡ pair
    → parse_lines 0 (l ∷ rest) s ≡ parse_lines (passed_by l pair rest) rest (round s l pair rest)
unfolding parse_lines
parse_lines-round l rest s e =
    ap (λ (p : Option (Text × Text)). parse_lines (passed_by l p rest) rest (round s l p rest)) e

parse_lines_scalar :
    (k v : Text) (content : Text) (rest : List Line) (s : Parsing)
    → is_inline v ≡ true
    → (let l : Line = record { indent = 0; content = content } in
        parse_lines (passed_by l (some (k, v)) rest) rest (round s l (some (k, v)) rest))
      ≡ parse_lines 0 rest (apply_scalar_value s k v)
parse_lines_scalar k [] content rest s h = cc
parse_lines_scalar k (c ∷ v) content rest s h = refl

logical_lines-pair_line :
    (k v rest : Text)
    → is_key k ≡ true
    → is_inline v ≡ true
    → logical_lines (pair_line k v ++ b'\n' ∷ rest)
      ≡ record { indent = 0; content = pair_line k v } ∷ logical_lines rest
logical_lines-pair_line [] v rest hk hv = cc
logical_lines-pair_line (c ∷ k) v rest hk hv =
    let solid = ends_solid-pair_line (c ∷ k) v (ground arith) in
    logical_lines-cons (pair_line (c ∷ k) v) rest
      (record { indent = 0; content = pair_line (c ∷ k) v })
      (has_no-pair_line (c ∷ k) v (ground arith) (ground arith)) solid
      (logical_line-top c (k ++ (b':' ∷ b' ' ∷ v)) (ground arith) (ground arith) solid)

children_of-pair_line :
    (k v rest : Text)
    → is_key k ≡ true
    → is_inline v ≡ true
    → children_of (logical_lines (pair_line k v ++ b'\n' ∷ rest)) ≡ []
children_of-pair_line k v rest hk hv = ap children_of (logical_lines-pair_line k v rest hk hv)

-- A line `key: value` at the left margin is one scalar.
pub run-pair_line :
    (k v rest : Text) (s : Parsing)
    → is_key k ≡ true
    → is_inline v ≡ true
    → run (pair_line k v ++ b'\n' ∷ rest) s ≡ run rest (apply_scalar_value s k v)
run-pair_line k v rest s hk hv =
    ap (λ ls. parse_lines 0 ls s) (logical_lines-pair_line k v rest hk hv)
    ∙ parse_lines-round (record { indent = 0; content = pair_line k v }) (logical_lines rest) s
        (split_key_value-pair_line k v hk hv)
    ∙ parse_lines_scalar k v (pair_line k v) (logical_lines rest) s hv

pair_line-IsBlock :
    (k v : Text) → is_key k ≡ true → is_inline v ≡ true → IsBlock (pair_line k v ++ b'\n' ∷ [])
pair_line-IsBlock [] v hk hv = cc
pair_line-IsBlock (c ∷ k) v hk hv =
    IsBlock-line (pair_line (c ∷ k) v) (has_no-pair_line (c ∷ k) v (ground arith) (ground arith)) (
      is_delimiter_line-solid c ((k ++ (b':' ∷ b' ' ∷ v)) ++ b'\n' ∷ []) (ground arith)
        (ground arith) (ground arith))

pub line-pair_line :
    (head : String) (k v rest : Text)
    → codes head ≡ k ++ codes ": "
    → line head v ++ rest ≡ pair_line k v ++ b'\n' ∷ rest
line-pair_line head k v rest e = rw e (simp append_assoc)

module _ {ℓ} {A : Type ℓ} (head : String) (k : Text) (show : A → Text) (o : Option A)
    (is_head : codes head ≡ k ++ codes ": ") (hk : is_key k ≡ true)
    (inline : (a : A) → o ≡ some a → is_inline (show a) ≡ true) where
  -- An optional line sets its field.
  pub run-optional :
      (rest : Text) (set : Option A → Parsing)
      → ((a : A) → o ≡ some a → apply_scalar_value (set none) k (show a) ≡ set (some a))
      → run (optional head show o ++ rest) (set none) ≡ run rest (set o)
  run-optional rest set applies = elim (Option-cases o) [
    | inl e ↦ rw e refl
    | inr (a, e) ↦ rw e (
        ap (λ t. run t (set none)) (line-pair_line head k (show a) rest is_head)
        ∙ run-pair_line k (show a) rest (set none) hk (inline a e)
        ∙ ap (run rest) (applies a e))
  ]

  pub optional-IsBlock : IsBlock (optional head show o)
  optional-IsBlock = elim (Option-cases o) [
    | inl e ↦ rw e IsBlock-nil
    | inr (a, e) ↦ rw e (
        subst IsBlock (sym (line-pair_line head k (show a) [] is_head) ∙ append-nil _)
          (pair_line-IsBlock k (show a) hk (inline a e)))
  ]

  -- The line stands at the left margin, so it ends the children of the key above it.
  pub children_of-optional :
      (rest : Text)
      → children_of (logical_lines rest) ≡ []
      → children_of (logical_lines (optional head show o ++ rest)) ≡ []
  children_of-optional rest top = elim (Option-cases o) [
    | inl e ↦ rw e top
    | inr (a, e) ↦ rw e (
        ap (λ t. children_of (logical_lines t)) (line-pair_line head k (show a) rest is_head)
        ∙ children_of-pair_line k (show a) rest hk (inline a e))
  ]
