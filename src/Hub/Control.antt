-- ===== src/Hub/Control.antt =====
-- control_plane/mod.rs: tenants and devices. A unique column that would hold a value twice, or a
-- reference to a row that is not there, fails the statement. A new row stands first; no query here
-- depends on the order of the rows.
use wkp.Base.{
  ℕ, ◌+◌, String, Bool, true, false, not, ◌&&◌, ◌||◌, Option, none, some, List, ◌∷◌, ltb, ◌==◌,
  if◌then◌else◌, filter, is_empty, is_some,
}
use text.Mathlib.Text.{◌==◌ as str_eq}
use wkp.Str.{Text, text_eq, trim}
use wkp.Hub.Store.{
  Tenant, Device, postgres, not_found, invalid_input, ok, err, Action, statement, query, raise,
  find_by, update_where,
}

abbrev pub is_tenant : ℕ → Tenant → Bool
is_tenant id t = t.id == id

abbrev pub has_slug : Text → Tenant → Bool
has_slug slug t = text_eq t.slug slug

abbrev pub is_device : ℕ → Device → Bool
is_device id d = d.id == id

abbrev pub has_key : String → Device → Bool
has_key public_key d = str_eq d.public_key public_key

abbrev pub holds_serial : String → Option String → Bool
holds_serial serial none = false
holds_serial serial (some s) = str_eq s serial

abbrev pub has_serial : String → Device → Bool
has_serial serial d = holds_serial serial d.cert_serial

abbrev pub new_tenant : ℕ → ℕ → Text → Tenant
new_tenant now id slug = record {
  id = id;
  slug = slug;
  always_warm = false;
  pod_running = false;
  pod_started_at = none;
  last_active_at = now;
}

unfoldable pub create_tenant : ℕ → Text → Action Tenant
create_tenant now slug = statement λ db.
    let row = new_tenant now db.next_tenant slug in
    let db' = record db { next_tenant = db.next_tenant + 1 } in
    if is_some (find_by (has_slug slug) db.tenants)
    then (err postgres, db')
    else (ok row, record db' { tenants = row ∷ db.tenants })

unfoldable pub find_tenant_by_slug : Text → Action (Option Tenant)
find_tenant_by_slug slug = query λ db. find_by (has_slug slug) db.tenants

unfoldable pub find_tenant_by_id : ℕ → Action (Option Tenant)
find_tenant_by_id id = query λ db. find_by (is_tenant id) db.tenants

-- `UPDATE tenants SET ... WHERE id`, with the check of the number of updated rows.
abbrev pub update_tenant : ℕ → (Tenant → Tenant) → Action Unit
update_tenant id f = statement λ db.
    if is_some (find_by (is_tenant id) db.tenants)
    then (ok tt, record db { tenants = update_where (is_tenant id) f db.tenants })
    else (err not_found, db)

unfoldable pub set_always_warm : ℕ → Bool → Action Unit
set_always_warm id always_warm = update_tenant id (λ t. record t { always_warm = always_warm })

unfoldable pub record_pod_started : ℕ → ℕ → Action Unit
record_pod_started now id =
    update_tenant id (λ t. record t { pod_running = true; pod_started_at = some now })

unfoldable pub record_pod_stopped : ℕ → Action Unit
record_pod_stopped id =
    update_tenant id (λ t. record t { pod_running = false; pod_started_at = none })

unfoldable pub touch_last_active : ℕ → ℕ → Action Unit
touch_last_active now id = update_tenant id (λ t. record t { last_active_at = now })

-- `last_active_at < now - idle_for`
abbrev pub is_idle : ℕ → ℕ → Tenant → Bool
is_idle now idle_for t =
    t.pod_running && (not t.always_warm && ltb (t.last_active_at + idle_for) now)

unfoldable pub find_idle_running_tenants : ℕ → ℕ → Action (List Tenant)
find_idle_running_tenants now idle_for = query λ db. filter (is_idle now idle_for) db.tenants

abbrev pub new_device : ℕ → ℕ → ℕ → String → Device
new_device now id tenant_id public_key = record {
  id = id;
  tenant_id = tenant_id;
  public_key = public_key;
  created_at = now;
  revoked_at = none;
  certificate_pem = none;
  cert_serial = none;
  cert_issued_at = none;
  cert_expires_at = none;
}

unfoldable pub register_device : ℕ → ℕ → String → Action Device
register_device now tenant_id public_key = statement λ db.
    let row = new_device now db.next_device tenant_id public_key in
    let db' = record db { next_device = db.next_device + 1 } in
    if is_some (find_by (has_key public_key) db.devices)
      || not (is_some (find_by (is_tenant tenant_id) db.tenants))
    then (err postgres, db')
    else (ok row, record db' { devices = row ∷ db.devices })

unfoldable pub find_device_by_public_key : String → Action (Option Device)
find_device_by_public_key public_key = query λ db. find_by (has_key public_key) db.devices

unfoldable pub find_device_by_id : ℕ → Action (Option Device)
find_device_by_id id = query λ db. find_by (is_device id) db.devices

unfoldable pub find_device_by_cert_serial : String → Action (Option Device)
find_device_by_cert_serial serial = query λ db. find_by (has_serial serial) db.devices

-- A certificate as it is recorded.
pub record Issued : Type 0 where
  pub certificate_pem : String
  pub cert_serial : String
  pub cert_issued_at : ℕ
  pub cert_expires_at : ℕ

abbrev pub with_certificate : Issued → Device → Device
with_certificate c d = record d {
  certificate_pem = some c.certificate_pem;
  cert_serial = some c.cert_serial;
  cert_issued_at = some c.cert_issued_at;
  cert_expires_at = some c.cert_expires_at;
}

-- Another device has the serial.
abbrev pub is_taken : ℕ → String → Device → Bool
is_taken id serial d = has_serial serial d && not (is_device id d)

unfoldable pub issue_device_certificate : ℕ → Issued → Action Unit
issue_device_certificate id c = statement λ db.
    if not (is_some (find_by (is_device id) db.devices))
    then (err not_found, db)
    else if is_some (find_by (is_taken id c.cert_serial) db.devices)
    then (err postgres, db)
    else (
      ok tt,
      record db { devices = update_where (is_device id) (with_certificate c) db.devices },
    )

-- `id = $1 AND revoked_at IS NULL`
abbrev pub is_active : ℕ → Device → Bool
is_active id d = is_device id d && not (is_some d.revoked_at)

abbrev pub notified : Option Device → List String → List String
notified none notices = notices
notified (some d) notices = elim d.cert_serial [ none ↦ notices | some serial ↦ serial ∷ notices ]

-- One transaction: it is run whole or not at all.
unfoldable pub revoke_device : ℕ → ℕ → Action Unit
revoke_device now id = statement λ db. (
  ok tt,
  record db {
    devices = update_where (is_active id) (λ d. record d { revoked_at = some now }) db.devices;
    notices = notified (find_by (is_active id) db.devices) db.notices;
  },
)

abbrev pub reset_all_payload : String
reset_all_payload = "*"

unfoldable pub reset_all_connections : Text → Action Unit
reset_all_connections performed_by =
    let by = trim performed_by in
    if is_empty by
    then raise invalid_input
    else statement λ db. (
      ok tt,
      record db {
        connection_reset_events = by ∷ db.connection_reset_events;
        notices = reset_all_payload ∷ db.notices;
      },
    )
