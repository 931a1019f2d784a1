-- ===== src/Frontmatter/RoundTrip/Pieces.antt =====
-- A piece of a rendered block: what the loop makes of it, wherever it stands.
use wkp.Base.{
  ℕ, String, ◌≡◌, refl, sym, ap, ◌∙◌, subst, Bool, true, Option, none, some, List, [], ◌++◌,
  append_assoc, or_else, map_option,
}
use wkp.Str.{Text, codes}
use wkp.Frontmatter.Types.{Frontmatter, Warning}
use wkp.Frontmatter.Lines.{logical_lines}
use wkp.Frontmatter.Values.{Parsing, apply_scalar_value, unquote, opt_string}
use wkp.Frontmatter.Parse.{children_of}
use wkp.Frontmatter.Render.{line, optional, debug}
use wkp.Frontmatter.RoundTrip.Plain.{is_inline, is_bare, debug-quotable}
use wkp.Frontmatter.RoundTrip.Blocks.{IsBlock, IsBlock-append, IsBlock-nil}
use wkp.Frontmatter.RoundTrip.Steps.{
  run, is_key, run-optional, optional-IsBlock, children_of-optional,
}
use wkp.Frontmatter.RoundTrip.Conditions.{
  Each, Each-some, IsQuotable, bare_value, opt_string-debug, opt_string-bare,
}

abbrev pub IsTop : Text → Type 0
IsTop rest = children_of (logical_lines rest) ≡ []

-- The loop passes over the text `t` with the effect that takes `s` to `u`.
pub record Piece (t : Text) (s u : Parsing) : Type 0 where
  pub runs : (rest : Text) → IsTop rest → run (t ++ rest) s ≡ run rest u
  pub block : IsBlock t
  pub top : (rest : Text) → IsTop rest → IsTop (t ++ rest)

pub Piece-append : (a b : Text) (s u v : Parsing) → Piece a s u → Piece b u v → Piece (a ++ b) s v
Piece-append a b s u v pa pb = record {
  runs = λ rest top.
      ap (λ t. run t s) (append_assoc a b rest)
      ∙ pa.runs (b ++ rest) (pb.top rest top)
      ∙ pb.runs rest top;
  block = IsBlock-append a b pa.block pb.block;
  top =
      λ rest top. subst IsTop (sym (append_assoc a b rest)) (pa.top (b ++ rest) (pb.top rest top));
}

pub Piece-nil : (s : Parsing) → Piece [] s s
Piece-nil s = record { runs = λ rest top. refl; block = IsBlock-nil; top = λ rest top. top }

pub optional-Piece {ℓ} :
    {A : Type ℓ} (head : String) (k : Text) (show : A → Text) (o : Option A)
    → codes head ≡ k ++ codes ": "
    → is_key k ≡ true
    → ((a : A) → o ≡ some a → is_inline (show a) ≡ true)
    → (set : Option A → Parsing)
    → ((a : A) → o ≡ some a → apply_scalar_value (set none) k (show a) ≡ set (some a))
    → Piece (optional head show o) (set none) (set o)
optional-Piece head k show o is_head hk inline set applies = record {
  runs = λ rest top. run-optional head k show o is_head hk inline rest set applies;
  block = optional-IsBlock head k show o is_head hk inline;
  top = children_of-optional head k show o is_head hk inline;
}

abbrev either : Parsing → Parsing → Option Text → Parsing
either before after none = before
either before after (some _) = after

-- One line that is always written.
pub line-Piece :
    (head : String) (k v : Text) (before after : Parsing)
    → codes head ≡ k ++ codes ": "
    → is_key k ≡ true
    → is_inline v ≡ true
    → apply_scalar_value before k v ≡ after
    → Piece (line head v) before after
line-Piece head k v before after is_head hk inline applies =
    optional-Piece head k (λ t. t) (some v) is_head hk
      (λ a e. subst (λ t. is_inline t ≡ true) (ap (λ o. or_else o []) e) inline)
      (either before after)
      (λ a e. subst (λ t. apply_scalar_value before k t ≡ after) (ap (λ o. or_else o []) e) applies)

module _ (printable : ℕ → Bool) (fm : Frontmatter) (ws : List Warning) where
  -- A quoted text under the key `k`, whose value `set_scalar` puts in place by `put`.
  pub quoted-Piece :
      (head : String) (k : Text) (o : Option Text) (put : Option Text → Frontmatter)
      → codes head ≡ k ++ codes ": "
      → is_key k ≡ true
      → ((v : Text) → apply_scalar_value (put none, ws) k v ≡ (put (opt_string (unquote v)), ws))
      → Each (IsQuotable printable) o
      → Piece (optional head (debug printable) o) (put none, ws) (put o, ws)
  quoted-Piece head k o put is_head hk applies h =
      optional-Piece head k (debug printable) o is_head hk
        (λ a e. (debug-quotable printable a (Each-some (IsQuotable printable) o a h e)).0)
        (λ x. (put x, ws))
        (λ a e.
          applies (debug printable a)
          ∙ ap (λ x. (put x, ws))
              (opt_string-debug printable a (Each-some (IsQuotable printable) o a h e)))

  -- A value of an open enumeration under the key `k`.
  pub bare-Piece {ℓ} :
      {A : Type ℓ} (head : String) (k : Text) (parse : Text → A) (show : A → Text) (o : Option A)
      (put : Option A → Frontmatter)
      → codes head ≡ k ++ codes ": "
      → is_key k ≡ true
      → ((v : Text) → show (parse v) ≡ v)
      → ((v : Text)
          → apply_scalar_value (put none, ws) k v
            ≡ (put (map_option parse (opt_string (unquote v))), ws))
      → ((a : A) → o ≡ some a → (raw : Text) × (a ≡ parse raw) × (is_bare raw ≡ true))
      → Piece (optional head show o) (put none, ws) (put o, ws)
  bare-Piece head k parse show o put is_head hk shown applies h =
      optional-Piece head k show o is_head hk
        (λ a e. let (raw, same, bare) = h a e in rw (same, shown raw) ((bare_value raw bare).0))
        (λ x. (put x, ws))
        (λ a e.
          let (raw, same, bare) = h a e in
          rw (same, shown raw) (applies raw ∙ rw (opt_string-bare raw bare) refl))
