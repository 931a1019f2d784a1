-- ===== src/Hub/Enrol/Token.antt =====
-- When `/device/token` hands out a certificate.
use wkp.Base.{
  ℕ, String, ◌≡◌, refl, ap, ◌∙◌, subst, ◌↔◌, inl, inr, false, Option, none, some, [], Bool-cases,
  Option-cases,
}
use wkp.Str.{Text}
use wkp.Hub.Store.{ok, Db, World, Device, Tenant, DeviceGrant, find_by}
use wkp.Hub.Control.{is_tenant, is_device, find_tenant_by_id, find_device_by_id}
use wkp.Hub.Grants.{has_device_code, find_grant_by_device_code, is_grant_expired}
use wkp.Hub.Reply.{token_success, Rendered, json, match_result, connect}
use wkp.Hub.Gate.Rules.{match_rule, query_rule}
use wkp.Hub.Enrol.{
  internal, handle_device_token, token_for_grant, token_for_approval, token_for_tenant,
  token_for_device,
}

-- The grant of the code has not expired and is approved for a device with this certificate.
pub record IsIssued (db : Db) (now : ℕ) (code : Text) (slug : Text) (device_id : ℕ) (pem : String)
    : Type 0 where
  pub grant : DeviceGrant
  pub tenant : Tenant
  pub device : Device
  pub granted : find_by (has_device_code code) db.device_grants ≡ some grant
  pub live : is_grant_expired now grant ≡ false
  pub approved : grant.approved_device_id ≡ some device_id
  pub served : find_by (is_tenant grant.tenant_id) db.tenants ≡ some tenant
  pub named : tenant.slug ≡ slug
  pub registered : find_by (is_device device_id) db.devices ≡ some device
  pub certified : device.certificate_pem ≡ some pem

-- The answer that carries a certificate.
abbrev pub token_of : String → Text → ℕ → String → Rendered
token_of root slug device_id pem = json 200 (token_success "approved" slug device_id pem root)

abbrev Sound : Db → ℕ → Text → String → Text → ℕ → String → Rendered × World → Type 0
Sound db now code root slug device_id pem (r, w) =
    r ≡ token_of root slug device_id pem → IsIssued db now code slug device_id pem

device-Sound :
    (root : String) (now : ℕ) (code slug : Text) (device_id : ℕ) (pem : String) (device_id' : ℕ)
    (grant : DeviceGrant) (tenant : Tenant) (o : Option Device) (w : World) (db : Db)
    → find_by (has_device_code code) db.device_grants ≡ some grant
    → is_grant_expired now grant ≡ false
    → grant.approved_device_id ≡ some device_id'
    → find_by (is_tenant grant.tenant_id) db.tenants ≡ some tenant
    → find_by (is_device device_id') db.devices ≡ o
    → Sound db now code root slug device_id pem (token_for_device root tenant.slug device_id' o w)
device-Sound root now code slug device_id pem device_id' grant tenant none w db g l a t d = λ h. cc
device-Sound root now code slug device_id pem device_id' grant tenant (some device) w db g l a t d =
    elim (Option-cases device.certificate_pem) [
      | inl e ↦ rw e (λ h. cc)
      | inr (pem', e) ↦ rw e (λ h.
          let same_id : device_id' ≡ device_id = cc in
          let same_pem : pem' ≡ pem = cc in
          let same_slug : tenant.slug ≡ slug = cc in
          record {
            grant = grant;
            tenant = tenant;
            device = device;
            granted = g;
            live = l;
            approved = a ∙ ap some same_id;
            served = t;
            named = same_slug;
            registered = subst (λ i. find_by (is_device i) db.devices ≡ some device) same_id d;
            certified = e ∙ ap some same_pem;
          })
    ]

tenant-Sound :
    (root : String) (now : ℕ) (code slug : Text) (device_id : ℕ) (pem : String) (device_id' : ℕ)
    (grant : DeviceGrant) (o : Option Tenant) (w : World)
    → find_by (has_device_code code) w.db.device_grants ≡ some grant
    → is_grant_expired now grant ≡ false
    → grant.approved_device_id ≡ some device_id'
    → find_by (is_tenant grant.tenant_id) w.db.tenants ≡ o
    → Sound w.db now code root slug device_id pem (token_for_tenant root device_id' o w)
unfolding find_device_by_id
tenant-Sound root now code slug device_id pem device_id' grant none w g l a t = λ h. cc
tenant-Sound root now code slug device_id pem device_id' grant (some tenant) w g l a t =
    query_rule (Sound w.db now code root slug device_id pem)
      (λ db. find_by (is_device device_id') db.devices) internal
      (token_for_device root tenant.slug device_id') w (λ fs h. cc)
      λ fs.
        device-Sound root now code slug device_id pem device_id' grant tenant _ _ w.db g l a t refl

approval-Sound :
    (root : String) (now : ℕ) (code slug : Text) (device_id : ℕ) (pem : String)
    (grant : DeviceGrant) (o : Option ℕ) (w : World)
    → find_by (has_device_code code) w.db.device_grants ≡ some grant
    → is_grant_expired now grant ≡ false
    → grant.approved_device_id ≡ o
    → Sound w.db now code root slug device_id pem (token_for_approval root grant.tenant_id o w)
unfolding find_tenant_by_id
approval-Sound root now code slug device_id pem grant none w g l a = λ h. cc
approval-Sound root now code slug device_id pem grant (some device_id') w g l a =
    query_rule (Sound w.db now code root slug device_id pem)
      (λ db. find_by (is_tenant grant.tenant_id) db.tenants) internal
      (token_for_tenant root device_id') w (λ fs h. cc)
      λ fs.
        tenant-Sound root now code slug device_id pem device_id' grant _
          (record { db = w.db; faults = fs }) g l a refl

grant-Sound :
    (root : String) (now : ℕ) (code slug : Text) (device_id : ℕ) (pem : String)
    (o : Option DeviceGrant) (w : World)
    → find_by (has_device_code code) w.db.device_grants ≡ o
    → Sound w.db now code root slug device_id pem (token_for_grant root now o w)
grant-Sound root now code slug device_id pem none w g = λ h. cc
grant-Sound root now code slug device_id pem (some grant) w g =
    elim (Bool-cases (is_grant_expired now grant)) [
      | inl e ↦ rw e (λ h. cc)
      | inr e ↦ rw e (approval-Sound root now code slug device_id pem grant _ w g e refl)
    ]

-- Whatever statements Postgres fails, `/device/token` hands out a certificate only for a code whose
-- grant has not expired and is approved, and it is the one on file for the approved device, with the
-- slug of the grant's tenant.
pub handle_device_token_sound :
    (root : String) (now : ℕ) (code slug : Text) (device_id : ℕ) (pem : String) (w : World)
    → (handle_device_token root now (some code) w).0 ≡ token_of root slug device_id pem
    → IsIssued w.db now code slug device_id pem
unfolding handle_device_token connect find_grant_by_device_code
handle_device_token_sound root now code slug device_id pem w =
    let P = λ (x : Rendered × World).
      (x.0 ≡ token_of root slug device_id pem → IsIssued w.db now code slug device_id pem) in
    let look_up : Db → Option DeviceGrant = λ db. find_by (has_device_code code) db.device_grants in
    let next = token_for_grant root now in
    match_rule P (λ db. (ok tt, db)) internal
      (λ _. match_result (find_grant_by_device_code code) internal next) w (λ fs h. cc)
      λ fs.
        query_rule P look_up internal next (record { db = w.db; faults = fs }) (λ fs' h. cc)
          λ fs'.
            grant-Sound root now code slug device_id pem _ (record { db = w.db; faults = fs' }) refl

pub issued_answered :
    (root : String) (now : ℕ) (code slug : Text) (device_id : ℕ) (pem : String) (db : Db)
    → IsIssued db now code slug device_id pem
    → handle_device_token root now (some code) (record { db = db; faults = [] })
      ≡ (token_of root slug device_id pem, record { db = db; faults = [] })
unfolding handle_device_token connect find_grant_by_device_code find_tenant_by_id find_device_by_id
issued_answered root now code slug device_id pem db i =
    rw (i.granted, i.live, i.approved, i.served, i.registered, i.certified, i.named) refl

-- Where no statement fails, `/device/token` hands out the certificate exactly if the grant of the
-- code has not expired and is approved for a device that has it.
pub handle_device_token_iff :
    (root : String) (now : ℕ) (code slug : Text) (device_id : ℕ) (pem : String) (db : Db)
    → ((handle_device_token root now (some code) (record { db = db; faults = [] })).0
        ≡ token_of root slug device_id pem)
      ↔ IsIssued db now code slug device_id pem
handle_device_token_iff root now code slug device_id pem db = (
  handle_device_token_sound root now code slug device_id pem (record { db = db; faults = [] }),
  λ i. ap (λ x. x.0) (issued_answered root now code slug device_id pem db i),
)
