-- ===== src/Hub/Store.antt =====
-- The tables of control_plane/schema.rs as control_plane/mod.rs and grants.rs read them, and what a
-- statement does. A text that only is compared is a `String`, one that is taken apart a `Text`; a
-- time is a number of seconds.
use wkp.Base.{ℕ, String, Bool, true, false, Option, none, some, List, [], ◌∷◌, if◌then◌else◌}
use wkp.Str.{Text}

pub record Tenant : Type 0 where
  pub id : ℕ
  pub slug : Text
  pub always_warm : Bool
  pub pod_running : Bool
  pub pod_started_at : Option ℕ
  pub last_active_at : ℕ

pub record Device : Type 0 where
  pub id : ℕ
  pub tenant_id : ℕ
  pub public_key : String
  pub created_at : ℕ
  pub revoked_at : Option ℕ
  pub certificate_pem : Option String
  pub cert_serial : Option String
  pub cert_issued_at : Option ℕ
  pub cert_expires_at : Option ℕ

pub record DeviceGrant : Type 0 where
  pub id : ℕ
  pub tenant_id : ℕ
  pub device_code : Text
  pub user_code : Text
  pub csr_pem : String
  pub expires_at : ℕ
  pub approved_device_id : Option ℕ

-- The tables, the numbers that `BIGSERIAL` gives next, and the payloads of `pg_notify`, the last one
-- first.
pub record Db : Type 0 where
  pub tenants : List Tenant
  pub devices : List Device
  pub device_grants : List DeviceGrant
  pub connection_reset_events : List Text
  pub notices : List String
  pub next_tenant : ℕ
  pub next_device : ℕ
  pub next_grant : ℕ

pub data Error : Type 0 where
  missing_database_url postgres not_found io invalid_input crypto : Error

pub data Result (A : Type 0) : Type 0 where
  ok : A → Result A
  err : Error → Result A

-- The database, and which of the coming statements Postgres fails without running them.
pub record World : Type 0 where
  pub db : Db
  pub faults : List Bool

abbrev pub Action : Type 0 → Type 0
Action A = World → Result A × World

abbrev pub run : {A : Type 0} → (Db → Result A × Db) → List Bool → Db → Result A × World
run f faults db = let (r, db') = f db in (r, record { db = db'; faults = faults })

abbrev pub statement_with : {A : Type 0} → (Db → Result A × Db) → List Bool → Db → Result A × World
statement_with f [] db = run f [] db
statement_with f (true ∷ faults) db = (err postgres, record { db = db; faults = faults })
statement_with f (false ∷ faults) db = run f faults db

abbrev pub statement : {A : Type 0} → (Db → Result A × Db) → Action A
statement f w = statement_with f w.faults w.db

-- `query_opt`: a statement that only reads.
abbrev pub query : {A : Type 0} → (Db → A) → Action A
query f = statement (λ db. (ok (f db), db))

abbrev pub pure : {A : Type 0} → A → Action A
pure a w = (ok a, w)

abbrev pub raise : {A : Type 0} → Error → Action A
raise e w = (err e, w)

infixl 5 ◌>>=◌
abbrev pub ◌>>=◌ : {A B : Type 0} → Action A → (A → Action B) → Action B
(m >>= f) w = let (r, w') = m w in elim r [ ok a ↦ f a w' | err e ↦ (err e, w') ]

-- `WHERE` on a key, and `UPDATE ... WHERE`.
abbrev pub find_by {ℓ} : {A : Type ℓ} → (A → Bool) → List A → Option A
find_by p [] = none
find_by p (x ∷ xs) = let rest = find_by p xs in if p x then some x else rest

abbrev pub update_where {ℓ} : {A : Type ℓ} → (A → Bool) → (A → A) → List A → List A
update_where p f [] = []
update_where p f (x ∷ xs) = (if p x then f x else x) ∷ update_where p f xs
