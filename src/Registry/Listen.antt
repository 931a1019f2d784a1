-- ===== src/Registry/Listen.antt =====
-- The loop that listens for revocations, over any sequence of rounds.
use wkp.Base.{
  ℕ, String, ◌≡◌, refl, ◌∙◌, subst, ◌⊎◌, inl, inr, Bool, true, Option, none, some, List, [], ◌∷◌,
  map, arith, Bool-cases,
}
use text.Mathlib.Text.{◌==◌ as str_eq}
use text.Mathlib.TextEquality.{eq_iff}
use wkp.Registry.Defs.{
  Registry, by_id_of, close_device, close_all, sweep, sweep_revoked, listen, ById, Received,
  on_received, other_channel, payload, reset_all_payload,
}
use wkp.Registry.Close.{holds, close_device-Closes, close_all_lem}
use wkp.Registry.Sweep.{IsClosed, sweep_revoked_lem}

-- No cancellation is taken back, a device without connections gets none, and each registered token
-- stays registered or is cancelled.
record Shrinks (s : String) (r r' : Registry) : Type 0 where
  still : (t : ℕ) → r.cancelled t ≡ true → r'.cancelled t ≡ true
  forgotten : by_id_of s r ≡ [] → by_id_of s r' ≡ []
  kept :
      (t : ℕ)
      → holds t (by_id_of s r) ≡ true
      → (holds t (by_id_of s r') ≡ true) ⊎ (r'.cancelled t ≡ true)

Shrinks-refl : (s : String) (r : Registry) → Shrinks s r r
Shrinks-refl s r = record { still = λ t h. h; forgotten = λ h. h; kept = λ t h. inl h }

Shrinks-trans : (s : String) (a b c : Registry) → Shrinks s a b → Shrinks s b c → Shrinks s a c
Shrinks-trans s a b c ab bc = record {
  still = λ t h. bc.still t (ab.still t h);
  forgotten = λ h. bc.forgotten (ab.forgotten h);
  kept = λ t h. elim (ab.kept t h) [ inl k ↦ bc.kept t k | inr k ↦ inr (bc.still t k) ];
}

close_device-Shrinks : (s p : String) (r : Registry) → Shrinks s r (close_device p r).1
close_device-Shrinks s p r =
    let c = close_device-Closes p r in
    elim (Bool-cases (str_eq p s)) [
      | inl same ↦
          let e : p ≡ s = (eq_iff p s).0 same in
          record {
            still = λ t h. rw (c.tokens t, h) (ground arith);
            forgotten = λ h. subst (λ k. by_id_of k (close_device p r).1 ≡ []) e c.forgets;
            kept = λ t h. inr (rw (c.tokens t, e, h) refl);
          }
      | inr other ↦ record {
        still = λ t h. rw (c.tokens t, h) (ground arith);
        forgotten = λ h. c.keeps s other ∙ h;
        kept = λ t h. inl (rw (c.keeps s other) h);
      }
    ]

close_all-Shrinks : (s : String) (r : Registry) → Shrinks s r (close_all r).1
close_all-Shrinks s r = record {
  still = (close_all_lem r).1;
  forgotten = λ h. (close_all_lem r).2 s;
  kept = λ t h. inr ((close_all_lem r).0 s t h);
}

on_received-Shrinks : (s : String) (x : Received) (r : Registry) → Shrinks s r (on_received x r)
unfolding on_received
on_received-Shrinks s other_channel r = Shrinks-refl s r
on_received-Shrinks s (payload p) r = elim (Bool-cases (str_eq p reset_all_payload)) [
  | inl e ↦ rw e (close_all-Shrinks s r)
  | inr e ↦ rw e (close_device-Shrinks s p r)
]

sweep-Shrinks :
    (s : String) (revoked : String → Bool) (serials : List String) (r : Registry)
    → Shrinks s r (sweep revoked serials r)
unfolding sweep
sweep-Shrinks s revoked [] r = Shrinks-refl s r
sweep-Shrinks s revoked (j ∷ serials) r = elim (Bool-cases (revoked j)) [
  | inl e ↦ rw e (
      Shrinks-trans s r (close_device j r).1 (sweep revoked serials (close_device j r).1)
        (close_device-Shrinks s j r) (sweep-Shrinks s revoked serials (close_device j r).1))
  | inr e ↦ rw e (sweep-Shrinks s revoked serials r)
]

sweep_revoked-Shrinks :
    (s : String) (revoked : String → Bool) (r : Registry) → Shrinks s r (sweep_revoked revoked r)
unfolding sweep_revoked
sweep_revoked-Shrinks s revoked r =
    sweep-Shrinks s revoked (map (λ (c : String × ById). c.0) r.connections) r

listen-Shrinks :
    (s : String) (rounds : List ((String → Bool) × Option Received)) (r : Registry)
    → Shrinks s r (listen rounds r)
unfolding listen
listen-Shrinks s [] r = Shrinks-refl s r
listen-Shrinks s ((revoked, none) ∷ rounds) r = listen-Shrinks s rounds r
listen-Shrinks s ((revoked, some x) ∷ rounds) r =
    let r1 = on_received x r in
    let r2 = sweep_revoked revoked r1 in
    Shrinks-trans s r r2 (listen rounds r2)
      (Shrinks-trans s r r1 r2 (on_received-Shrinks s x r) (sweep_revoked-Shrinks s revoked r1))
      (listen-Shrinks s rounds r2)

-- Some round receives a notification, of whatever channel and payload, when the control plane calls
-- the device revoked.
pub data IsNoticed (s : String) : List ((String → Bool) × Option Received) → Type 0 where
  now :
      {revoked : String → Bool} {x : Received} {rounds : List ((String → Bool) × Option Received)}
      → revoked s ≡ true
      → IsNoticed s ((revoked, some x) ∷ rounds)
  later :
      {round : (String → Bool) × Option Received}
      {rounds : List ((String → Bool) × Option Received)}
      → IsNoticed s rounds
      → IsNoticed s (round ∷ rounds)

IsClosed-before :
    (s : String) (a b c : Registry)
    → Shrinks s a b
    → IsClosed s b c
    → Shrinks s b c
    → IsClosed s a c
IsClosed-before s a b c ab (none_left, cancelled) bc =
    (none_left, λ t h. elim (ab.kept t h) [ inl k ↦ cancelled t k | inr k ↦ bc.still t k ])

IsClosed-after : (s : String) (a b c : Registry) → IsClosed s a b → Shrinks s b c → IsClosed s a c
IsClosed-after s a b c (none_left, cancelled) bc =
    (bc.forgotten none_left, λ t h. bc.still t (cancelled t h))

-- Where some round receives a notification while the control plane calls a device revoked, be it
-- another device's or of another channel, the device has no registered connection when the rounds
-- are over, and each token that was registered for it before them is cancelled, whatever the rounds
-- before and after receive.
pub listen-IsClosed :
    (s : String) (rounds : List ((String → Bool) × Option Received)) (r : Registry)
    → IsNoticed s rounds
    → IsClosed s r (listen rounds r)
unfolding listen
listen-IsClosed s _ r (now {revoked} {x} {rounds} h) =
    let r1 = on_received x r in
    let r2 = sweep_revoked revoked r1 in
    IsClosed-after s r r2 (listen rounds r2)
      (IsClosed-before s r r1 r2 (on_received-Shrinks s x r) (sweep_revoked_lem revoked r1 s h)
        (sweep_revoked-Shrinks s revoked r1))
      (listen-Shrinks s rounds r2)
listen-IsClosed s ((revoked, none) ∷ rounds) r (later n) = listen-IsClosed s rounds r n
listen-IsClosed s ((revoked, some x) ∷ rounds) r (later n) =
    let r1 = on_received x r in
    let r2 = sweep_revoked revoked r1 in
    IsClosed-before s r r2 (listen rounds r2)
      (Shrinks-trans s r r1 r2 (on_received-Shrinks s x r) (sweep_revoked-Shrinks s revoked r1))
      (listen-IsClosed s rounds r2 n) (listen-Shrinks s rounds r2)
