-- ===== src/Registry/System.antt =====
-- The registry with the streams that hold its guards: an open connection that is not cancelled is
-- always registered, so that a close reaches it.
use wkp.Base.{
  ℕ, ◌+◌, ◌%◌, ◌^◌, ◌<◌, String, ◌≡◌, refl, sym, ◌∙◌, ◌≢◌, ◌⊎◌, inl, inr, true, some, List, [], ◌∷◌,
  arith, ==_iff, Bool-cases,
}
use text.Mathlib.Text.{◌==◌ as str_eq}
use text.Mathlib.TextEquality.{eq_iff}
use text.Mathlib.TextPositions.{eq_refl}
use wkp.Registry.Defs.{
  Registry, Guard, empty, by_id_of, token_of, register, drop_guard, close_device, close_all,
  string_equality, nat_equality,
}
use wkp.Registry.Tokens.{token_of-register, token_of-deregister, deregister_keeps}
use wkp.Registry.Close.{holds-lookup, close_device-Closes, close_all_lem}

-- An open connection: the guard that its stream owns, and its token.
pub record Open : Type 0 where
  pub guard : Guard
  pub token : ℕ

-- Its token is cancelled, or registered under its guard.
abbrev pub IsReachable : Registry → Open → Type 0
IsReachable r c =
    (r.cancelled c.token ≡ true) ⊎ (token_of c.guard.cert_serial c.guard.id r ≡ some c.token)

abbrev pub All {ℓ} : {A : Type ℓ} → (A → Type 0) → List A → Type 0
All P [] = Unit
All P (x ∷ xs) = P x × All P xs

-- `rest` is the list without one occurrence of `c`.
pub data Removed (c : Open) : List Open → List Open → Type 0 where
  here : {cs : List Open} → Removed c (c ∷ cs) cs
  there : {d : Open} {cs rest : List Open} → Removed c cs rest → Removed c (d ∷ cs) (d ∷ rest)

pub record System : Type 0 where
  pub registry : Registry
  pub open_streams : List Open

-- A connection is accepted (until the 64-bit counter of ids is used up) or ends, a device is revoked
-- or all are reset.
pub data Step (σ : System) : System → Type 0 where
  connect :
      (serial : String)
      → σ.registry.next_id + 1 < 2 ^ 64
      → Step σ (record {
        registry = (register serial σ.registry).2;
        open_streams =
            record {
              guard = (register serial σ.registry).1;
              token = (register serial σ.registry).0;
            }
            ∷ σ.open_streams;
      })
  disconnect :
      (c : Open) (rest : List Open)
      → Removed c σ.open_streams rest
      → Step σ (record { registry = drop_guard c.guard σ.registry; open_streams = rest })
  revoke : (serial : String) → Step σ (record σ { registry = (close_device serial σ.registry).1 })
  reset : Step σ (record σ { registry = (close_all σ.registry).1 })

abbrev pub start : System
start = record { registry = empty; open_streams = [] }

pub data Reach : System → Type 0 where
  begin : Reach start
  next : {σ τ : System} → Reach σ → Step σ τ → Reach τ

-- The ids of the open connections are apart from `id`.
abbrev Apart : ℕ → List Open → Type 0
Apart id cs = All (λ (c : Open). c.guard.id ≢ id) cs

abbrev Distinct : List Open → Type 0
Distinct [] = Unit
Distinct (c ∷ cs) = Apart c.guard.id cs × Distinct cs

pub record Inv (σ : System) : Type 0 where
  pub reachable : All (IsReachable σ.registry) σ.open_streams
  pub older : All (λ (c : Open). c.guard.id < σ.registry.next_id) σ.open_streams
  pub distinct : Distinct σ.open_streams

All-map :
    {A : Type 0} (P Q : A → Type 0) (xs : List A) → ((x : A) → P x → Q x) → All P xs → All Q xs
All-map P Q [] f h = tt
All-map P Q (x ∷ xs) f h = (f x h.0, All-map P Q xs f h.1)

All-map_two :
    {A : Type 0} (P Q R : A → Type 0) (xs : List A)
    → ((x : A) → P x → Q x → R x)
    → All P xs
    → All Q xs
    → All R xs
All-map_two P Q R [] f h k = tt
All-map_two P Q R (x ∷ xs) f h k = (f x h.0 k.0, All-map_two P Q R xs f h.1 k.1)

All-Removed :
    (P : Open → Type 0) {c : Open} {cs rest : List Open}
    → Removed c cs rest
    → All P cs
    → P c × All P rest
All-Removed P here h = h
All-Removed P (there r) h = let (p, q) = All-Removed P r h.1 in (p, (h.0, q))

Distinct-Removed :
    {c : Open} {cs rest : List Open}
    → Removed c cs rest
    → Distinct cs
    → Apart c.guard.id rest × Distinct rest
Distinct-Removed here h = h
Distinct-Removed {c} (there {d} r) h =
    let (apart, distinct) = Distinct-Removed r h.1 in
    let (d_c, d_rest) = All-Removed (λ (x : Open). x.guard.id ≢ d.guard.id) r h.0 in
    ((λ e. d_c (sym e), apart), (d_rest, distinct))

module _ (r : Registry) where
  connect-IsReachable :
      (s : String) (c : Open)
      → c.guard.id < r.next_id
      → IsReachable r c
      → IsReachable (register s r).2 c
  connect-IsReachable s c lt (inl h) = inl (unfold register in h)
  connect-IsReachable s c lt (inr h) = inr (
      token_of-register s c.guard.cert_serial c.guard.id r
      ∙ ground (arith, h, ==_iff r.next_id c.guard.id))

  disconnect-IsReachable :
      (g : Guard) (c : Open) → c.guard.id ≢ g.id → IsReachable r c → IsReachable (drop_guard g r) c
  disconnect-IsReachable g c ne (inl h) =
      inl (unfold drop_guard in rw ((deregister_keeps g.cert_serial g.id r).0) h)
  disconnect-IsReachable g c ne (inr h) = inr (
      unfold drop_guard in
      (token_of-deregister g.cert_serial c.guard.cert_serial g.id c.guard.id r
        ∙ ground (arith, h, ne, ==_iff g.id c.guard.id)))

  -- A connection of the closed device is cancelled.
  close_device-cancels :
      (s : String) (c : Open)
      → c.guard.cert_serial ≡ s
      → IsReachable r c
      → (close_device s r).1.cancelled c.token ≡ true
  close_device-cancels s c e (inl h) =
      rw ((close_device-Closes s r).tokens c.token, h) (ground arith)
  close_device-cancels s c e (inr h) =
      rw
        (
          (close_device-Closes s r).tokens c.token,
          holds-lookup c.guard.id c.token (by_id_of s r) (rw e at h),
        )
        refl

  revoke-IsReachable :
      (s : String) (c : Open) → IsReachable r c → IsReachable (close_device s r).1 c
  revoke-IsReachable s c (inl h) =
      inl (rw ((close_device-Closes s r).tokens c.token, h) (ground arith))
  revoke-IsReachable s c (inr h) = elim (Bool-cases (str_eq s c.guard.cert_serial)) [
    | inl same ↦
        inl (close_device-cancels s c (sym ((eq_iff s c.guard.cert_serial).0 same)) (inr h))
    | inr other ↦ inr (rw ((close_device-Closes s r).keeps c.guard.cert_serial other) h)
  ]

  close_all-cancels : (c : Open) → IsReachable r c → (close_all r).1.cancelled c.token ≡ true
  close_all-cancels c (inl h) = (close_all_lem r).1 c.token h
  close_all-cancels c (inr h) =
      (close_all_lem r).0 c.guard.cert_serial c.token
        (holds-lookup c.guard.id c.token (by_id_of c.guard.cert_serial r) h)

abbrev IsOlder : ℕ → Open → Type 0
IsOlder n c = c.guard.id < n

Step-Inv : {σ τ : System} → Step σ τ → Inv σ → Inv τ
unfolding register
Step-Inv {σ} (connect serial room) inv =
    let r = σ.registry in
    let next : (r.next_id + 1) % 2 ^ 64 ≡ r.next_id + 1 = omega arith in
    record {
      reachable = (
        inr (
            token_of-register serial serial r.next_id r
            ∙ ground (arith, eq_refl serial, ==_iff r.next_id r.next_id)),
        All-map_two (IsOlder r.next_id) (IsReachable r) (IsReachable (register serial r).2)
            σ.open_streams (λ c. connect-IsReachable r serial c) inv.older inv.reachable,
      );
      older = (
        rw next (omega arith),
        All-map (IsOlder r.next_id) (IsOlder ((r.next_id + 1) % 2 ^ 64)) σ.open_streams
            (λ c h. rw next (omega arith)) inv.older,
      );
      distinct = (
        All-map (IsOlder r.next_id) (λ (c : Open). c.guard.id ≢ r.next_id) σ.open_streams
            (λ c h. omega arith) inv.older,
        inv.distinct,
      );
    }
Step-Inv {σ} (disconnect c rest gone) inv =
    let r = σ.registry in
    let (apart, distinct) = Distinct-Removed gone inv.distinct in
    let counter : (drop_guard c.guard r).next_id ≡ r.next_id =
      unfold drop_guard in (deregister_keeps c.guard.cert_serial c.guard.id r).1 in
    record {
      reachable =
          All-map_two (λ (d : Open). d.guard.id ≢ c.guard.id) (IsReachable r)
            (IsReachable (drop_guard c.guard r)) rest
            (λ d ne h. disconnect-IsReachable r c.guard d ne h) apart
            (All-Removed (IsReachable r) gone inv.reachable).1;
      older = rw counter ((All-Removed (IsOlder r.next_id) gone inv.older).1);
      distinct = distinct;
    }
Step-Inv {σ} (revoke serial) inv =
    let r = σ.registry in
    record {
      reachable =
          All-map (IsReachable r) (IsReachable (close_device serial r).1) σ.open_streams
            (λ c. revoke-IsReachable r serial c) inv.reachable;
      older = rw ((close_device-Closes serial r).same_counters.0) inv.older;
      distinct = inv.distinct;
    }
Step-Inv {σ} reset inv = record {
  reachable =
      All-map (IsReachable σ.registry) (IsReachable (close_all σ.registry).1) σ.open_streams
        (λ c h. inl (close_all-cancels σ.registry c h)) inv.reachable;
  older = unfold close_all in inv.older;
  distinct = inv.distinct;
}

Reach-Inv : {σ : System} → Reach σ → Inv σ
Reach-Inv begin = record { reachable = tt; older = tt; distinct = tt }
Reach-Inv (next r s) = Step-Inv s (Reach-Inv r)

-- In every state that the hub can reach, closing a device cancels every open connection that
-- presented its certificate, and a reset cancels every open connection.
pub close_device-Reach :
    {σ : System} (serial : String)
    → Reach σ
    → All
        (λ (c : Open).
          (c.guard.cert_serial ≡ serial
            → (close_device serial σ.registry).1.cancelled c.token ≡ true)
          × ((close_all σ.registry).1.cancelled c.token ≡ true))
        σ.open_streams
close_device-Reach {σ} serial reach =
    All-map (IsReachable σ.registry) _ σ.open_streams
      (λ c h. (λ e. close_device-cancels σ.registry serial c e h, close_all-cancels σ.registry c h))
      (Reach-Inv reach).reachable
