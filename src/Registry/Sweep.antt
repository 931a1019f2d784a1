-- ===== src/Registry/Sweep.antt =====
-- The sweep closes every device that the control plane has revoked.
use wkp.Base.{
  ℕ, String, ◌≡◌, refl, sym, ◌∙◌, subst, ◌⊎◌, inl, inr, Bool, true, false, ◌||◌, List, [], ◌∷◌, map,
  arith, if◌then◌else◌, Bool-cases, or_else,
}
use text.Mathlib.Text.{◌==◌ as str_eq}
use text.Mathlib.TextEquality.{eq_iff}
use wkp.Base.Maps.{lookup}
use wkp.Registry.Defs.{
  ById, Registry, by_id_of, close_device, sweep, sweep_revoked, string_equality,
}
use wkp.Registry.Close.{holds, close_device-Closes, not_holds_nil}

-- The registry after the loop has looked at the serial `j`.
abbrev swept : (String → Bool) → String → Registry → Registry
swept revoked j r = if revoked j then (close_device j r).1 else r

swept_cancelled :
    (revoked : String → Bool) (j : String) (r : Registry) (t : ℕ)
    → r.cancelled t ≡ true
    → (swept revoked j r).cancelled t ≡ true
swept_cancelled revoked j r t h = elim (Bool-cases (revoked j)) [
  | inl e ↦ rw (e, (close_device-Closes j r).tokens t, h) (ground arith)
  | inr e ↦ rw e h
]

swept_other :
    (revoked : String → Bool) (j s : String) (r : Registry)
    → str_eq j s ≡ false
    → by_id_of s (swept revoked j r) ≡ by_id_of s r
swept_other revoked j s r h = elim (Bool-cases (revoked j)) [
  | inl e ↦ rw e ((close_device-Closes j r).keeps s h)
  | inr e ↦ rw e refl
]

swept_forgotten :
    (revoked : String → Bool) (j s : String) (r : Registry)
    → by_id_of s r ≡ []
    → by_id_of s (swept revoked j r) ≡ []
swept_forgotten revoked j s r h = elim (Bool-cases (str_eq j s)) [
  | inr other ↦ swept_other revoked j s r other ∙ h
  | inl same ↦ elim (Bool-cases (revoked j)) [
    | inl e ↦ rw e (
        subst (λ k. by_id_of k (close_device j r).1 ≡ []) ((eq_iff j s).0 same)
          (close_device-Closes j r).forgets)
    | inr e ↦ rw e h
  ]
]

sweep_cancelled :
    (revoked : String → Bool) (serials : List String) (r : Registry) (t : ℕ)
    → r.cancelled t ≡ true
    → (sweep revoked serials r).cancelled t ≡ true
unfolding sweep
sweep_cancelled revoked [] r t h = h
sweep_cancelled revoked (j ∷ serials) r t h =
    sweep_cancelled revoked serials (swept revoked j r) t (swept_cancelled revoked j r t h)

sweep_forgotten :
    (revoked : String → Bool) (serials : List String) (s : String) (r : Registry)
    → by_id_of s r ≡ []
    → by_id_of s (sweep revoked serials r) ≡ []
unfolding sweep
sweep_forgotten revoked [] s r h = h
sweep_forgotten revoked (j ∷ serials) s r h =
    sweep_forgotten revoked serials s (swept revoked j r) (swept_forgotten revoked j s r h)

among : String → List String → Bool
among s [] = false
among s (j ∷ js) = str_eq j s || among s js

-- What the theorem says of one device: none of its connections is registered, and every token that
-- was registered for it is cancelled.
abbrev pub IsClosed : String → Registry → Registry → Type 0
IsClosed s r r' =
    (by_id_of s r' ≡ []) × ((t : ℕ) → holds t (by_id_of s r) ≡ true → r'.cancelled t ≡ true)

sweep_hit :
    (revoked : String → Bool) (serials : List String) (s : String) (r : Registry)
    → revoked s ≡ true
    → among s serials ≡ true
    → IsClosed s r (sweep revoked serials r)
unfolding sweep among
sweep_hit revoked [] s r h m = cc
sweep_hit revoked (j ∷ serials) s r h m = elim (Bool-cases (str_eq j s)) [
  | inl same ↦
      let e : j ≡ s = (eq_iff j s).0 same in
      let c = close_device-Closes s r in
      let at_j : swept revoked j r ≡ (close_device s r).1 = rw (e, h) refl in
      subst (λ x. IsClosed s r (sweep revoked serials x)) (sym at_j)
        (
          sweep_forgotten revoked serials s (close_device s r).1 c.forgets,
          λ t k. sweep_cancelled revoked serials (close_device s r).1 t (rw (c.tokens t, k) refl),
        )
  | inr other ↦
      let rest = sweep_hit revoked serials s (swept revoked j r) h (rw other at m) in
      (rest.0, λ t k. rest.1 t (rw (swept_other revoked j s r other) k))
]

among-serials :
    (s : String) (m : List (String × ById))
    → (or_else (lookup s m) [] ≡ []) ⊎ (among s (map (λ (c : String × ById). c.0) m) ≡ true)
unfolding lookup among
among-serials s [] = inl refl
among-serials s ((j, by_id) ∷ m) = elim (Bool-cases (str_eq j s)) [
  | inl same ↦ inr (rw same refl)
  | inr other ↦ rw other (among-serials s m)
]

-- After a sweep, every device that the control plane calls revoked has no registered connection,
-- and every token that was registered for it is cancelled.
pub sweep_revoked_lem :
    (revoked : String → Bool) (r : Registry) (s : String)
    → revoked s ≡ true
    → IsClosed s r (sweep_revoked revoked r)
unfolding sweep_revoked
sweep_revoked_lem revoked r s h = elim (among-serials s r.connections) [
  | inr m ↦ sweep_hit revoked (map (λ (c : String × ById). c.0) r.connections) s r h m
  | inl none_open ↦ (
    sweep_forgotten revoked (map (λ (c : String × ById). c.0) r.connections) s r none_open,
    λ t k. absurd (not_holds_nil t (rw none_open at k)),
  )
]
