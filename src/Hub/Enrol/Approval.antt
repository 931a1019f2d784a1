-- ===== src/Hub/Enrol/Approval.antt =====
-- What `/verify` does to the grant and the device, and what `/device/token` answers after it.
use wkp.Base.{ℕ, ◌+◌, String, ◌≡◌, false, none, some, ◌∷◌}
use wkp.Str.{Text}
use wkp.Hub.Store.{Db, Tenant, DeviceGrant, find_by, update_where}
use wkp.Hub.Control.{
  Issued, is_tenant, is_device, has_serial, has_key, with_certificate, new_device,
}
use wkp.Hub.Grants.{approved_with, is_grant, has_user_code, has_device_code, is_grant_expired}
use wkp.Hub.Enrol.{Signed, issued_of}
use wkp.Hub.Grants.{approved_with}

-- What `/verify` needs for a first approval.
pub record IsApprovable (db : Db) (now : ℕ) (code user_code : Text) (grant : DeviceGrant)
    (tenant : Tenant) (signed : Signed) (public_key : String) : Type 0 where
  pub by_user_code : find_by (has_user_code user_code) db.device_grants ≡ some grant
  pub by_device_code : find_by (has_device_code code) db.device_grants ≡ some grant
  pub live : is_grant_expired now grant ≡ false
  pub waiting : grant.approved_device_id ≡ none
  pub served : find_by (is_tenant grant.tenant_id) db.tenants ≡ some tenant
  pub new_key : find_by (has_key public_key) db.devices ≡ none
  pub new_serial : find_by (has_serial signed.serial_hex) db.devices ≡ none

-- The database after the two statements of the approval, and after the certificate is on file.
abbrev registered_db : ℕ → Db → DeviceGrant → String → Db
registered_db now db grant public_key = record db {
  next_device = db.next_device + 1;
  devices = new_device now db.next_device grant.tenant_id public_key ∷ db.devices;
  device_grants =
      update_where (is_grant grant.id) (λ g. record g { approved_device_id = some db.next_device })
        db.device_grants;
}

abbrev certified_db : ℕ → Issued → Db → Db
certified_db id c db = record db {
  devices = update_where (is_device id) (with_certificate c) db.devices;
}

abbrev approved_db : ℕ → Db → DeviceGrant → Signed → String → Db
approved_db now db grant signed public_key =
    certified_db db.next_device (issued_of signed) (registered_db now db grant public_key)

abbrev new_row_db : ℕ → Db → ℕ → String → Db
new_row_db now db tenant_id public_key = record db {
  next_device = db.next_device + 1;
  devices = new_device now db.next_device tenant_id public_key ∷ db.devices;
}
