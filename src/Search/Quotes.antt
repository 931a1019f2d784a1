-- ===== src/Search/Quotes.antt =====
-- The quotes of a sanitized query.
use wkp.Base.{
  ℕ, ◌+◌, ◌%◌, ◌≡◌, refl, not, List, [], ◌∷◌, ◌++◌, map, arith, ◌==◌, if◌then◌else◌, filter,
}
use wkp.Str.{Text, codes, join}
use wkp.Search.{doubled, quoted_word, words, sanitize_fts_query_joined}

abbrev pub quotes : Text → ℕ
quotes [] = 0
quotes (c ∷ cs) = (if c == b'"' then 1 else 0) + quotes cs

quotes-append : (a b : Text) → quotes (a ++ b) ≡ quotes a + quotes b
quotes-append [] b = omega arith
quotes-append (c ∷ a) b = omega (arith, quotes-append a b)

quotes-doubled : (t : Text) → quotes (doubled t) % 2 ≡ 0
quotes-doubled [] = refl
quotes-doubled (c ∷ t) = ground (arith, quotes-doubled t)

quotes-quoted_word : (t : Text) → quotes (quoted_word t) % 2 ≡ 0
quotes-quoted_word t = omega (arith, quotes-append (doubled t) (codes "\"*"), quotes-doubled t)

quotes-join :
    (joiner : Text) (ws : List Text)
    → quotes joiner % 2 ≡ 0
    → quotes (join joiner (map quoted_word ws)) % 2 ≡ 0
unfolding join
quotes-join joiner [] h = refl
quotes-join joiner (w ∷ []) h = quotes-quoted_word w
quotes-join joiner (w ∷ v ∷ ws) h = omega (
  arith,
  quotes-append (quoted_word w) (joiner ++ join joiner (map quoted_word (v ∷ ws))),
  quotes-append joiner (join joiner (map quoted_word (v ∷ ws))),
  quotes-quoted_word w,
  quotes-join joiner (v ∷ ws) h,
  h,
)

-- Whatever the query, and with a joiner whose quotes are balanced, the sanitized query has an even
-- number of quotes, so that every phrase in it is closed.
pub quotes-sanitize_fts_query_joined :
    (raw joiner : Text)
    → quotes joiner % 2 ≡ 0
    → quotes (sanitize_fts_query_joined raw joiner) % 2 ≡ 0
unfolding sanitize_fts_query_joined
quotes-sanitize_fts_query_joined raw joiner h =
    quotes-join joiner (words (filter (λ c. not (c == 0)) raw)) h
