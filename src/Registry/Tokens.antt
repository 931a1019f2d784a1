-- ===== src/Registry/Tokens.antt =====
-- What each operation does to the token that a connection is registered under.
use wkp.Base.{
  ℕ, String, ◌≡◌, refl, ap, ◌∙◌, inl, inr, Bool, true, false, ◌&&◌, Option, none, some, List, [],
  ◌∷◌, arith, ◌==◌, if◌then◌else◌, Bool-cases, or_else,
}
use text.Mathlib.Text.{◌==◌ as str_eq}
use text.Mathlib.TextEquality.{eq_iff}
use wkp.Base.Maps.{lookup, insert, remove, lookup-insert, lookup-remove}
use wkp.Registry.Defs.{
  ById, Registry, by_id_of, token_of, register, deregister, deregistered, without, string_equality,
  nat_equality,
}

-- What a device's connections are after `register`.
by_id_of-register :
    (s j : String) (r : Registry)
    → by_id_of j (register s r).2
      ≡ (if str_eq s j then insert r.next_id r.fresh (by_id_of s r) else by_id_of j r)
unfolding register
by_id_of-register s j r =
    rw (lookup-insert s j (insert r.next_id r.fresh (by_id_of s r)) r.connections) (ground arith)

pub token_of-register :
    (s j : String) (id : ℕ) (r : Registry)
    → token_of j id (register s r).2
      ≡ (if str_eq s j && r.next_id == id then some r.fresh else token_of j id r)
token_of-register s j id r =
    ap (lookup id) (by_id_of-register s j r) ∙ token_after (str_eq s j) refl
  where
    token_after :
        (b : Bool)
        → str_eq s j ≡ b
        → lookup id (if b then insert r.next_id r.fresh (by_id_of s r) else by_id_of j r)
          ≡ (if b && r.next_id == id then some r.fresh else token_of j id r)
    token_after true e =
        lookup-insert r.next_id id r.fresh (by_id_of s r)
        ∙ ap (λ k. if r.next_id == id then some r.fresh else lookup id (by_id_of k r))
            ((eq_iff s j).0 e)
    token_after false e = refl

by_id_of-without :
    (s j : String) (by_id : ById) (m : List (String × ById))
    → or_else (lookup j (without s by_id m)) []
      ≡ (if str_eq s j then by_id else or_else (lookup j m) [])
by_id_of-without s j [] m = rw (lookup-remove s j m) (ground arith)
by_id_of-without s j (c ∷ cs) m = rw (lookup-insert s j (c ∷ cs) m) (ground arith)

by_id_of-deregistered :
    (s j : String) (id : ℕ) (r : Registry) (o : Option ById)
    → lookup s r.connections ≡ o
    → by_id_of j (deregistered s id r o)
      ≡ (if str_eq s j then remove id (or_else o []) else by_id_of j r)
unfolding remove
by_id_of-deregistered s j id r (some by_id) e = by_id_of-without s j (remove id by_id) r.connections
by_id_of-deregistered s j id r none e = elim (Bool-cases (str_eq s j)) [
  | inl same ↦ rw (same, ← (eq_iff s j).0 same, e) refl
  | inr other ↦ rw other refl
]

pub token_of-deregister :
    (s j : String) (id i : ℕ) (r : Registry)
    → token_of j i (deregister s id r) ≡ (if str_eq s j && id == i then none else token_of j i r)
unfolding deregister
token_of-deregister s j id i r =
    ap (lookup i) (by_id_of-deregistered s j id r (lookup s r.connections) refl)
    ∙ token_after (str_eq s j) refl
  where
    token_after :
        (b : Bool)
        → str_eq s j ≡ b
        → lookup i (if b then remove id (by_id_of s r) else by_id_of j r)
          ≡ (if b && id == i then none else token_of j i r)
    token_after true e =
        lookup-remove id i (by_id_of s r)
        ∙ ap (λ k. if id == i then none else lookup i (by_id_of k r)) ((eq_iff s j).0 e)
    token_after false e = refl

-- Deregistering touches neither the tokens nor the counter of ids.
pub deregister_keeps :
    (s : String) (id : ℕ) (r : Registry)
    → ((deregister s id r).cancelled ≡ r.cancelled) × ((deregister s id r).next_id ≡ r.next_id)
unfolding deregister
deregister_keeps s id r = kept (lookup s r.connections)
  where
    kept :
        (o : Option ById)
        → ((deregistered s id r o).cancelled ≡ r.cancelled)
          × ((deregistered s id r o).next_id ≡ r.next_id)
    kept none = (refl, refl)
    kept (some by_id) = (refl, refl)
