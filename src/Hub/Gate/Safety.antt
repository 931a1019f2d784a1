-- ===== src/Hub/Gate/Safety.antt =====
-- Who gets an answer of a tenant's pod.
use wkp.Base.{
  ℕ, String, ◌≡◌, refl, inl, inr, Bool, true, false, Option, none, some, arith, ◌==◌, ==_iff,
  Bool-cases, is_some,
}
use text.Mathlib.Text.{◌==◌ as str_eq}
use wkp.Str.{Text}
use wkp.Hub.Store.{Error, ok, Db, World, Device, Tenant, find_by}
use wkp.Hub.Control.{has_serial, has_slug, find_device_by_cert_serial, find_tenant_by_slug}
use wkp.Hub.Reply.{pod_bytes, Rendered, status_only, match_result, connect}
use wkp.Hub.Gate.{Pods, GitRequest, handle_git_http, with_serial, with_device, with_tenant}
use wkp.Hub.Gate.Rules.{match_rule, query_rule}

-- The peer's certificate is the one of a device of the tenant that is not revoked.
pub record MayReach (db : Db) (slug : Text) (peer : Option String) : Type 0 where
  pub serial : String
  pub device : Device
  pub tenant : Tenant
  pub presented : peer ≡ some serial
  pub known : find_by (has_serial serial) db.devices ≡ some device
  pub not_revoked : is_some device.revoked_at ≡ false
  pub served : find_by (has_slug slug) db.tenants ≡ some tenant
  pub own : device.tenant_id ≡ tenant.id

-- An answer that a pod gave.
abbrev pub is_from_pod : Rendered → Bool
is_from_pod r = elim r.body [ pod_bytes bytes ↦ true | _ ↦ false ]

abbrev Gated : Db → Text → Option String → Rendered × World → Type 0
Gated db slug peer (r, w) = is_from_pod r ≡ true → MayReach db slug peer

tenant-Gated :
    (pods : Pods) (now : ℕ) (get : Bool) (r : GitRequest) (db : Db) (serial : String)
    (device : Device) (o : Option Tenant) (w : World)
    → find_by (has_serial serial) db.devices ≡ some device
    → is_some device.revoked_at ≡ false
    → find_by (has_slug r.tenant_slug) db.tenants ≡ o
    → Gated db r.tenant_slug (some serial) (with_tenant pods now get r device o w)
tenant-Gated pods now get r db serial device none w known active served = λ h. cc
tenant-Gated pods now get r db serial device (some tenant) w known active served =
    elim (Bool-cases (device.tenant_id == tenant.id)) [
      | inl e ↦ λ h. record {
        serial = serial;
        device = device;
        tenant = tenant;
        presented = refl;
        known = known;
        not_revoked = active;
        served = served;
        own = ground (arith, e, ==_iff device.tenant_id tenant.id);
      }
      | inr e ↦ rw e (λ h. cc)
    ]

device-Gated :
    (pods : Pods) (now : ℕ) (get : Bool) (r : GitRequest) (serial : String) (o : Option Device)
    (w : World)
    → find_by (has_serial serial) w.db.devices ≡ o
    → Gated w.db r.tenant_slug (some serial) (with_device pods now get r o w)
unfolding find_tenant_by_slug
device-Gated pods now get r serial none w known = λ h. cc
device-Gated pods now get r serial (some device) w known =
    elim (Bool-cases (is_some device.revoked_at)) [
      | inl revoked ↦ rw revoked (λ h. cc)
      | inr active ↦ rw active (
          query_rule (Gated w.db r.tenant_slug (some serial))
            (λ db. find_by (has_slug r.tenant_slug) db.tenants) (λ _. status_only 500)
            (with_tenant pods now get r device) w (λ fs h. cc)
            (λ fs. tenant-Gated pods now get r w.db serial device _ _ known active refl))
    ]

serial-Gated :
    (pods : Pods) (now : ℕ) (get : Bool) (r : GitRequest) (peer : Option String) (w : World)
    → Gated w.db r.tenant_slug peer (with_serial pods now get r peer w)
unfolding connect find_device_by_cert_serial
serial-Gated pods now get r none w = λ h. cc
serial-Gated pods now get r (some serial) w =
    let P = Gated w.db r.tenant_slug (some serial) in
    let failed : Error → Rendered = λ _. status_only 500 in
    let by_device = with_device pods now get r in
    let look_up : Db → Option Device = λ db. find_by (has_serial serial) db.devices in
    match_rule P (λ db. (ok tt, db)) failed
      (λ _. match_result (find_device_by_cert_serial serial) failed by_device) w (λ fs h. cc)
      λ fs.
        query_rule P look_up failed by_device (record { db = w.db; faults = fs }) (λ fs' h. cc)
          λ fs'. device-Gated pods now get r serial _ (record { db = w.db; faults = fs' }) refl

-- A git request is answered by a pod only if the peer's
-- certificate belongs to a registered device of that tenant that is not revoked, whatever
-- statements Postgres fails and whatever the pods do.
pub handle_git_http_gated :
    (pods : Pods) (now : ℕ) (r : GitRequest) (peer : Option String) (w : World)
    → is_from_pod (handle_git_http pods now r peer w).0 ≡ true
    → MayReach w.db r.tenant_slug peer
unfolding handle_git_http
handle_git_http_gated pods now r peer w = elim (Bool-cases (str_eq r.method "GET")) [
  | inl e ↦ rw e (serial-Gated pods now true r peer w)
  | inr e ↦ elim (Bool-cases (str_eq r.method "POST")) [
    | inl e' ↦ rw (e, e') (serial-Gated pods now false r peer w)
    | inr e' ↦ rw (e, e') (λ h. cc)
  ]
]
