-- ===== src/Hub/Steps/Own.antt =====
-- Whose certificate `/device/token` hands out.
use wkp.Base.{ℕ, String, ◌≡◌, sym, ap, ◌∙◌, subst, Bool, true, some, List, arith, ◌==◌, ==_iff}
use wkp.Str.{Text}
use wkp.Hub.Store.{Db, World, Device, Tenant, find_by}
use wkp.Hub.Control.{is_device, is_tenant}
use wkp.Hub.Enrol.{handle_device_token}
use wkp.Hub.Enrol.Token.{IsIssued, token_of, handle_device_token_sound}
use wkp.Hub.Tables.{owns, IsWellFormed, approval_holds, approval_of}
use wkp.Hub.Rows.{all-find_by}
use wkp.Hub.Steps.{Steps}
use wkp.Hub.Steps.Reach.{empty_db, reached-IsWellFormed}

-- The device that an answer of `/device/token` names, and its tenant.
pub record IsOwnDevice (db : Db) (slug : Text) (device_id : ℕ) (pem : String) : Type 0 where
  pub device : Device
  pub tenant : Tenant
  pub registered : find_by (is_device device_id) db.devices ≡ some device
  pub certified : device.certificate_pem ≡ some pem
  pub served : find_by (is_tenant device.tenant_id) db.tenants ≡ some tenant
  pub named : tenant.slug ≡ slug

issued-IsOwnDevice :
    (db : Db) (now : ℕ) (code slug : Text) (device_id : ℕ) (pem : String)
    → IsWellFormed db
    → IsIssued db now code slug device_id pem
    → IsOwnDevice db slug device_id pem
issued-IsOwnDevice db now code slug device_id pem h i =
    let holds : approval_of db.devices i.grant.tenant_id (some device_id) ≡ true =
      ap (approval_of db.devices i.grant.tenant_id) (sym i.approved)
      ∙ all-find_by (approval_holds db.devices) _ db.device_grants i.grant h.approvals i.granted in
    let own : (i.device.tenant_id == i.grant.tenant_id) ≡ true =
      ap (owns i.grant.tenant_id) (sym i.registered) ∙ holds in
    let same : i.grant.tenant_id ≡ i.device.tenant_id =
      ground (arith, own, ==_iff i.device.tenant_id i.grant.tenant_id) in
    record {
      device = i.device;
      tenant = i.tenant;
      registered = i.registered;
      certified = i.certified;
      served = subst (λ t. find_by (is_tenant t) db.tenants ≡ some i.tenant) same i.served;
      named = i.named;
    }

-- In each state that is reached from an empty database, a certificate that `/device/token` hands out
-- is the one on file for the device it names, and the slug it names is the one of that device's own
-- tenant.
pub handle_device_token_own :
    (faults : List Bool) (w : World) (root : String) (now : ℕ) (code slug : Text) (device_id : ℕ)
    (pem : String)
    → Steps (record { db = empty_db; faults = faults }) w
    → (handle_device_token root now (some code) w).0 ≡ token_of root slug device_id pem
    → IsOwnDevice w.db slug device_id pem
handle_device_token_own faults w root now code slug device_id pem steps answered =
    issued-IsOwnDevice w.db now code slug device_id pem (reached-IsWellFormed faults w steps)
      (handle_device_token_sound root now code slug device_id pem w answered)
