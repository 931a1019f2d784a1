-- ===== src/Registry/Close.antt =====
-- What closing does to the registry and to the tokens.
use wkp.Base.{
  ℕ, String, ◌≡◌, refl, Bool, true, false, ◌||◌, Option, none, some, List, [], ◌∷◌, arith, ◌==◌,
  ==_iff, length, or_else,
}
use text.Mathlib.Text.{◌==◌ as str_eq}
use text.Mathlib.TextPositions.{eq_refl}
use wkp.Base.Maps.{lookup, lookup-remove}
use wkp.Registry.Defs.{
  closed, ById, Registry, by_id_of, cancel, cancel_each, cancel_every, close_device, close_all,
  string_equality, nat_equality,
}

-- The token is one of those of the list.
unfoldable pub holds : ℕ → ById → Bool
holds t [] = false
holds t ((id, token) ∷ by_id) = token == t || holds t by_id

pub not_holds_nil : (t : ℕ) → ¬ (holds t [] ≡ true)
unfolding holds
not_holds_nil t h = cc

pub cancel_each_lem :
    (by_id : ById) (cancelled : ℕ → Bool) (t : ℕ)
    → cancel_each by_id cancelled t ≡ (holds t by_id || cancelled t)
unfolding cancel_each holds cancel
cancel_each_lem [] cancelled t = refl
cancel_each_lem ((id, token) ∷ by_id) cancelled t =
    ground (arith, cancel_each_lem by_id (cancel token cancelled) t)

pub holds-lookup : (id t : ℕ) (by_id : ById) → lookup id by_id ≡ some t → holds t by_id ≡ true
unfolding lookup holds
holds-lookup id t [] h = cc
holds-lookup id t ((i, token) ∷ by_id) h = ground (arith, holds-lookup id t by_id, ==_iff token t)

-- Closing a device cancels exactly the tokens that were registered for it, forgets them, leaves the
-- other devices as they were, and counts them.
pub record Closes (serial : String) (r : Registry) (n : ℕ) (r' : Registry) : Type 0 where
  pub tokens : (t : ℕ) → r'.cancelled t ≡ (holds t (by_id_of serial r) || r.cancelled t)
  pub forgets : by_id_of serial r' ≡ []
  pub keeps : (other : String) → str_eq serial other ≡ false → by_id_of other r' ≡ by_id_of other r
  pub counts : n ≡ length (by_id_of serial r)
  pub same_counters : (r'.next_id ≡ r.next_id) × (r'.fresh ≡ r.fresh)

closed-Closes :
    (serial : String) (r : Registry) (o : Option ById)
    → lookup serial r.connections ≡ o
    → Closes serial r (closed serial r o).0 (closed serial r o).1
closed-Closes serial r none e = record {
  tokens = λ t. rw e (unfold holds in refl);
  forgets = rw e refl;
  keeps = λ other h. refl;
  counts = rw e refl;
  same_counters = (refl, refl);
}
closed-Closes serial r (some by_id) e = record {
  tokens = λ t. rw e (cancel_each_lem by_id r.cancelled t);
  forgets = rw (lookup-remove serial serial r.connections, eq_refl serial) refl;
  keeps = λ other h. rw (lookup-remove serial other r.connections, h) refl;
  counts = rw e refl;
  same_counters = (refl, refl);
}

-- `close_device` cancels exactly the tokens that are registered for the device, forgets them, leaves
-- the other devices and the counters as they are, and returns how many they were.
pub close_device-Closes :
    (serial : String) (r : Registry)
    → Closes serial r (close_device serial r).0 (close_device serial r).1
unfolding close_device
close_device-Closes serial r = closed-Closes serial r (lookup serial r.connections) refl

holds_any : ℕ → List (String × ById) → Bool
holds_any t [] = false
holds_any t ((serial, by_id) ∷ m) = holds t by_id || holds_any t m

cancel_every_lem :
    (m : List (String × ById)) (cancelled : ℕ → Bool) (t : ℕ)
    → cancel_every m cancelled t ≡ (holds_any t m || cancelled t)
unfolding cancel_every holds_any
cancel_every_lem [] cancelled t = refl
cancel_every_lem ((serial, by_id) ∷ m) cancelled t =
    ground
      (arith, cancel_every_lem m (cancel_each by_id cancelled) t, cancel_each_lem by_id cancelled t)

holds_any-lookup :
    (serial : String) (t : ℕ) (m : List (String × ById))
    → holds t (or_else (lookup serial m) []) ≡ true
    → holds_any t m ≡ true
unfolding lookup holds_any holds
holds_any-lookup serial t [] h = h
holds_any-lookup serial t ((j, by_id) ∷ m) h = ground (arith, holds_any-lookup serial t m)

-- After `close_all` every token that was registered for any device is cancelled, no cancellation is
-- taken back, and no connection is registered.
pub close_all_lem :
    (r : Registry)
    → ((serial : String) (t : ℕ)
        → holds t (by_id_of serial r) ≡ true
        → (close_all r).1.cancelled t ≡ true)
      × ((t : ℕ) → r.cancelled t ≡ true → (close_all r).1.cancelled t ≡ true)
      × ((serial : String) → by_id_of serial (close_all r).1 ≡ [])
unfolding close_all
close_all_lem r = (
  λ serial t h. ground (
    arith,
    cancel_every_lem r.connections r.cancelled t,
    holds_any-lookup serial t r.connections h,
  ),
  λ t h. ground (arith, cancel_every_lem r.connections r.cancelled t),
  λ serial. unfold lookup in refl,
)
