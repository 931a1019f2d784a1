-- ===== src/Hub/Tables.antt =====
-- What a property of the database has to survive: the changes that the statements of the control
-- plane make to the tables, with what each of them checks.
pub mod WellFormed
pub mod Revoked
use wkp.Base.{
  ℕ, zero, suc, ◌+◌, ◌-◌, ◌*◌, ◌/◌, ◌%◌, ◌^◌, ◌≤◌, ◌<◌, min, max, String, ◌≡◌, refl, sym, ap, ap₂,
  ◌∙◌, subst, ◌≡⟨◌⟩◌, ◌∎, ◌≢◌, ◌↔◌, ◌⊎◌, inl, inr, Bool, true, false, not, ◌&&◌, ◌||◌, Option, none,
  some, List, [], ◌∷◌, ◌++◌, map, append-nil, append_assoc, arith, ltb, leb, ◌==◌, if◌then◌else◌,
  ==_iff, Bool-cases, Option-cases, &&-elim, length, take, drop, flatten, filter, take_while, all,
  any, is_empty, length-append, take-append, drop-append, filter_map, or_else, is_some, map_option,
  ◌>>=◌, all-append, drop_past, push_some,
}
use wkp.Str.{Text}
use wkp.Hub.Store.{Db, Device, Tenant, DeviceGrant, find_by, update_where}
use wkp.Hub.Control.{is_tenant, is_device, new_tenant, new_device}
use wkp.Hub.Rows.{ids_below}
use wkp.Hub.Grants.{hex, has_device_code, Random, new_grant, is_grant, has_user_code}

abbrev pub has_tenant : List Tenant → ℕ → Bool
has_tenant tenants id = is_some (find_by (is_tenant id) tenants)

abbrev pub owns : ℕ → Option Device → Bool
owns tenant_id none = false
owns tenant_id (some d) = d.tenant_id == tenant_id

-- An approved grant names a device of its own tenant.
abbrev pub approval_of : List Device → ℕ → Option ℕ → Bool
approval_of devices tenant_id none = true
approval_of devices tenant_id (some id) = owns tenant_id (find_by (is_device id) devices)

abbrev pub approval_holds : List Device → DeviceGrant → Bool
approval_holds devices g = approval_of devices g.tenant_id g.approved_device_id

pub record References (tenants : List Tenant) (devices : List Device) (grants : List DeviceGrant)
    (next_device next_grant : ℕ) : Type 0 where
  pub device_tenants : all (λ d. has_tenant tenants d.tenant_id) devices ≡ true
  pub grant_tenants : all (λ g. has_tenant tenants g.tenant_id) grants ≡ true
  pub approvals : all (approval_holds devices) grants ≡ true
  pub device_ids : ids_below Device.id next_device devices ≡ true
  pub grant_ids : ids_below DeviceGrant.id next_grant grants ≡ true

abbrev pub IsWellFormed : Db → Type 0
IsWellFormed db = References db.tenants db.devices db.device_grants db.next_device db.next_grant

-- Each device is kept the same device: its number and its tenant stay, and a revocation stays.
pub record IsEdit (f : Device → Device) : Type 0 where
  pub keeps_id : (d : Device) → (f d).id ≡ d.id
  pub keeps_tenant : (d : Device) → (f d).tenant_id ≡ d.tenant_id
  pub keeps_revoked : (d : Device) → is_some d.revoked_at ≡ true → is_some (f d).revoked_at ≡ true
  pub keeps_certified :
      (d : Device) → is_some d.certificate_pem ≡ true → is_some (f d).certificate_pem ≡ true

pub record IsKept (I : Db → Type 0) : Type 0 where
  pub references : (db : Db) → I db → IsWellFormed db
  pub number_tenant : (db : Db) → I db → I (record db { next_tenant = db.next_tenant + 1 })
  pub add_tenant :
      (db : Db) (now : ℕ) (slug : Text)
      → I db
      → I (record db {
        next_tenant = db.next_tenant + 1;
        tenants = new_tenant now db.next_tenant slug ∷ db.tenants;
      })
  pub edit_tenants :
      (db : Db) (q : Tenant → Bool) (f : Tenant → Tenant)
      → ((t : Tenant) → (f t).id ≡ t.id)
      → I db
      → I (record db { tenants = update_where q f db.tenants })
  pub number_device : (db : Db) → I db → I (record db { next_device = db.next_device + 1 })
  pub add_device :
      (db : Db) (now tenant_id : ℕ) (public_key : String)
      → has_tenant db.tenants tenant_id ≡ true
      → I db
      → I (record db {
        next_device = db.next_device + 1;
        devices = new_device now db.next_device tenant_id public_key ∷ db.devices;
      })
  pub edit_devices :
      (db : Db) (q : Device → Bool) (f : Device → Device)
      → IsEdit f
      → I db
      → I (record db { devices = update_where q f db.devices })
  pub number_grant : (db : Db) → I db → I (record db { next_grant = db.next_grant + 1 })
  pub add_grant :
      (db : Db) (now tenant_id : ℕ) (csr_pem : String) (r : Random)
      → has_tenant db.tenants tenant_id ≡ true
      → find_by (has_device_code (hex r.device_bytes)) db.device_grants ≡ none
      → I db
      → I (record db {
        next_grant = db.next_grant + 1;
        device_grants = new_grant now db.next_grant tenant_id csr_pem r ∷ db.device_grants;
      })
  pub approve :
      (db : Db) (p : DeviceGrant → Bool) (grant : DeviceGrant) (device_id : ℕ)
      → find_by p db.device_grants ≡ some grant
      → grant.approved_device_id ≡ none
      → owns grant.tenant_id (find_by (is_device device_id) db.devices) ≡ true
      → I db
      → I (record db {
        device_grants =
            update_where
              (is_grant grant.id)
              (λ g. record g { approved_device_id = some device_id })
              db.device_grants;
      })
  pub announce :
      (db : Db) (events : List Text) (notices : List String)
      → I db
      → I (record db { connection_reset_events = events; notices = notices })
