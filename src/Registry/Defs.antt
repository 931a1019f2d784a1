-- ===== src/Registry/Defs.antt =====
-- `ConnectionRegistry`: its operations, with the cancellation tokens that it shares with the
-- streams as a store.
use wkp.Base.{
  ℕ, ◌+◌, ◌%◌, ◌^◌, String, Bool, false, ◌||◌, Option, none, some, List, [], ◌∷◌, map, ◌==◌,
  if◌then◌else◌, ==_iff, length, or_else,
}
use text.Mathlib.Text.{◌==◌ as str_eq}
use text.Mathlib.TextEquality.{eq_iff}
use wkp.Base.Equality.{Eq}
use wkp.Base.Maps.{lookup, insert, remove}

instance abbrev pub string_equality : Eq String
string_equality = record { beq = str_eq; beq_iff = eq_iff }

abbrev nat_beq : ℕ → ℕ → Bool
nat_beq a b = a == b

instance abbrev pub nat_equality : Eq ℕ
nat_equality = record { beq = nat_beq; beq_iff = ==_iff }

-- The connections of one device: a connection id to its token.
abbrev pub ById : Type 0
ById = List (ℕ × ℕ)

-- The registry, and the store of tokens: `fresh` is the next token that `CancellationToken::new`
-- makes, and `cancelled` says which tokens have been cancelled.
pub record Registry : Type 0 where
  pub connections : List (String × ById)
  pub next_id : ℕ
  pub fresh : ℕ
  pub cancelled : ℕ → Bool

abbrev pub empty : Registry
empty = record { connections = []; next_id = 0; fresh = 0; cancelled = λ t. false }

-- `ConnectionGuard`, without its pointer to the one registry
pub record Guard : Type 0 where
  pub cert_serial : String
  pub id : ℕ

-- `entry(..).or_default()`
abbrev pub by_id_of : String → Registry → ById
by_id_of serial r = or_else (lookup serial r.connections) []

-- The token of one connection.
abbrev pub token_of : String → ℕ → Registry → Option ℕ
token_of serial id r = lookup id (by_id_of serial r)

unfoldable pub register : String → Registry → ℕ × Guard × Registry
register serial r = (
  r.fresh,
  record { cert_serial = serial; id = r.next_id },
  record r {
    connections = insert serial (insert r.next_id r.fresh (by_id_of serial r)) r.connections;
    next_id = (r.next_id + 1) % 2 ^ 64;
    fresh = r.fresh + 1;
  },
)

abbrev pub without : String → ById → List (String × ById) → List (String × ById)
without serial [] connections = remove serial connections
without serial (c ∷ cs) connections = insert serial (c ∷ cs) connections

abbrev pub deregistered : String → ℕ → Registry → Option ById → Registry
deregistered serial id r none = r
deregistered serial id r (some by_id) = record r {
  connections = without serial (remove id by_id) r.connections;
}

unfoldable pub deregister : String → ℕ → Registry → Registry
deregister serial id r = deregistered serial id r (lookup serial r.connections)

-- `Drop for ConnectionGuard`
unfoldable pub drop_guard : Guard → Registry → Registry
unfolding deregister
drop_guard g r = deregister g.cert_serial g.id r

unfoldable pub cancel : ℕ → (ℕ → Bool) → ℕ → Bool
cancel token cancelled t = token == t || cancelled t

unfoldable pub cancel_each : ById → (ℕ → Bool) → ℕ → Bool
cancel_each [] cancelled = cancelled
cancel_each ((id, token) ∷ by_id) cancelled = cancel_each by_id (cancel token cancelled)

abbrev pub closed : String → Registry → Option ById → ℕ × Registry
closed serial r none = (0, r)
closed serial r (some by_id) = (
  length by_id,
  record r { connections = remove serial r.connections; cancelled = cancel_each by_id r.cancelled },
)

unfoldable pub close_device : String → Registry → ℕ × Registry
close_device serial r = closed serial r (lookup serial r.connections)

unfoldable pub count_each : List (String × ById) → ℕ
count_each [] = 0
count_each ((serial, by_id) ∷ m) = length by_id + count_each m

unfoldable pub cancel_every : List (String × ById) → (ℕ → Bool) → ℕ → Bool
cancel_every [] cancelled = cancelled
cancel_every ((serial, by_id) ∷ m) cancelled = cancel_every m (cancel_each by_id cancelled)

unfoldable pub close_all : Registry → ℕ × Registry
close_all r = (
  count_each r.connections,
  record r { connections = []; cancelled = cancel_every r.connections r.cancelled },
)

-- The loop of `sweep_revoked` over the serials that were open when it began. `revoked` is the answer
-- of the query on the control plane's table.
unfoldable pub sweep : (String → Bool) → List String → Registry → Registry
sweep revoked [] r = r
sweep revoked (serial ∷ serials) r =
    sweep revoked serials (if revoked serial then (close_device serial r).1 else r)

unfoldable pub sweep_revoked : (String → Bool) → Registry → Registry
unfolding sweep
sweep_revoked revoked r = sweep revoked (map (λ (c : String × ById). c.0) r.connections) r

-- A notification that the `LISTEN` loop received.
pub data Received : Type 0 where
  other_channel : Received
  payload : String → Received

abbrev pub reset_all_payload : String
reset_all_payload = "*"

unfoldable pub on_received : Received → Registry → Registry
on_received other_channel r = r
on_received (payload p) r =
    if str_eq p reset_all_payload then (close_all r).1 else (close_device p r).1

-- The loop of `run_listen_loop` inside that of `listen_for_revocations`, over what `next` gives in
-- each round, with the control plane's answers at that time. `none` ends the inner loop before the
-- sweep, and the outer loop connects again.
unfoldable pub listen : List ((String → Bool) × Option Received) → Registry → Registry
unfolding on_received sweep_revoked
listen [] r = r
listen ((revoked, none) ∷ rounds) r = listen rounds r
listen ((revoked, some received) ∷ rounds) r =
    listen rounds (sweep_revoked revoked (on_received received r))
