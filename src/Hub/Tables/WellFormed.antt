-- ===== src/Hub/Tables/WellFormed.antt =====
-- The references between the tables.
use wkp.Base.{
  ℕ, ◌+◌, ◌≡◌, refl, sym, ap, ◌∙◌, inl, inr, Bool, true, false, Option, none, some, List, ◌∷◌,
  arith, ◌==◌, ==_iff, Bool-cases, Option-cases, all,
}
use wkp.Hub.Store.{Db, Device, Tenant, DeviceGrant, find_by, update_where}
use wkp.Hub.Control.{is_tenant, is_device, new_tenant, new_device}
use wkp.Hub.Grants.{new_grant, is_grant}
use wkp.Hub.Rows.{
  find_by-update_where, find_by_passes, all-implied, all-update_where, all-update_where_by,
  is_some-find_by-update_where, is_some-find_by-cons, ids_below, ids_below_raise, ids_below-cons,
  ids_below-update_where, find_by_below, all-same_row,
}
use wkp.Hub.Tables.{
  approval_of, approval_holds, References, IsWellFormed, has_tenant, owns, IsEdit, IsKept,
}

tenants_grow :
    (tenants tenants' : List Tenant) (db : Db)
    → ((id : ℕ) → has_tenant tenants id ≡ true → has_tenant tenants' id ≡ true)
    → References tenants db.devices db.device_grants db.next_device db.next_grant
    → References tenants' db.devices db.device_grants db.next_device db.next_grant
tenants_grow tenants tenants' db grow h = record {
  device_tenants =
      all-implied _ (λ d. has_tenant tenants' d.tenant_id) db.devices (λ d. grow d.tenant_id)
        h.device_tenants;
  grant_tenants =
      all-implied _ (λ g. has_tenant tenants' g.tenant_id) db.device_grants (λ g. grow g.tenant_id)
        h.grant_tenants;
  approvals = h.approvals;
  device_ids = h.device_ids;
  grant_ids = h.grant_ids;
}

-- A grant stays approved where each device that was found is found with its tenant.
abbrev Stays : List Device → List Device → Type 0
Stays devices devices' =
    (id tenant_id : ℕ)
    → owns tenant_id (find_by (is_device id) devices) ≡ true
    → owns tenant_id (find_by (is_device id) devices') ≡ true

approval-Stays :
    (devices devices' : List Device) (tenant_id : ℕ) (o : Option ℕ)
    → Stays devices devices'
    → approval_of devices tenant_id o ≡ true
    → approval_of devices' tenant_id o ≡ true
approval-Stays devices devices' tenant_id none stay h = refl
approval-Stays devices devices' tenant_id (some id) stay h = stay id tenant_id h

approvals-Stays :
    (devices devices' : List Device) (grants : List DeviceGrant)
    → Stays devices devices'
    → all (approval_holds devices) grants ≡ true
    → all (approval_holds devices') grants ≡ true
approvals-Stays devices devices' grants stay =
    all-implied _ (approval_holds devices') grants
      (λ g. approval-Stays devices devices' g.tenant_id g.approved_device_id stay)

-- A new device has a number that none has, so it hides no other.
Stays-cons :
    (devices : List Device) (row : Device) (n : ℕ)
    → ids_below Device.id n devices ≡ true
    → row.id ≡ n
    → Stays devices (row ∷ devices)
Stays-cons devices row n below e id tenant_id h =
    elim (Option-cases (find_by (is_device id) devices)) [
      | inl missing ↦ absurd (ground (arith, h, missing))
      | inr (d, found) ↦
          let less = find_by_below Device.id n (is_device id) devices d below found in
          let same : (d.id == id) ≡ true = find_by_passes (is_device id) devices d found in
          let apart : (row.id == id) ≡ false =
            ground (arith, less, same, e, ==_iff d.id id, ==_iff row.id id) in
          rw apart h
    ]

Stays-update_where :
    (devices : List Device) (q : Device → Bool) (f : Device → Device)
    → IsEdit f
    → Stays devices (update_where q f devices)
Stays-update_where devices q f edit id tenant_id h =
    elim (Option-cases (find_by (is_device id) devices)) [
      | inl missing ↦ absurd (ground (arith, h, missing))
      | inr (d, found) ↦
          let found' =
            find_by-update_where (is_device id) q f devices d
              (λ y. ap (λ i. i == id) (edit.keeps_id y)) found in
          let own : owns tenant_id (some d) ≡ true = ap (owns tenant_id) (sym found) ∙ h in
          elim (Bool-cases (q d)) [
            | inl e ↦ rw (found', e, edit.keeps_tenant d) own
            | inr e ↦ rw (found', e) own
          ]
    ]

approve_kept :
    (db : Db) (p : DeviceGrant → Bool) (grant : DeviceGrant) (device_id : ℕ)
    → find_by p db.device_grants ≡ some grant
    → grant.approved_device_id ≡ none
    → owns grant.tenant_id (find_by (is_device device_id) db.devices) ≡ true
    → IsWellFormed db
    → IsWellFormed (record db {
      device_grants =
          update_where
            (is_grant grant.id)
            (λ g. record g { approved_device_id = some device_id })
            db.device_grants;
    })
approve_kept db p grant device_id found waiting own h =
    let approved : DeviceGrant → DeviceGrant =
      λ g. record g { approved_device_id = some device_id } in
    let fits : DeviceGrant → Bool =
      λ g. owns g.tenant_id (find_by (is_device device_id) db.devices) in
    let fit =
      all-same_row DeviceGrant.id db.next_grant p fits db.device_grants grant h.grant_ids found
        own in
    record {
      device_tenants = h.device_tenants;
      grant_tenants =
          all-update_where _ (is_grant grant.id) approved db.device_grants (λ g e k. k)
            h.grant_tenants;
      approvals =
          all-update_where_by (approval_holds db.devices) (is_grant grant.id) fits approved
            db.device_grants (λ g k. k) fit h.approvals;
      device_ids = h.device_ids;
      grant_ids =
          ids_below-update_where DeviceGrant.id db.next_grant (is_grant grant.id) approved
            db.device_grants (λ g. refl)
          ∙ h.grant_ids;
    }

-- The references hold after each change to the tables.
pub IsWellFormed-IsKept : IsKept IsWellFormed
IsWellFormed-IsKept = record {
  references = λ db h. h;
  number_tenant = λ db h. h;
  add_tenant = λ db now slug h.
      tenants_grow db.tenants _ db
        (λ id. is_some-find_by-cons (is_tenant id) (new_tenant now db.next_tenant slug) db.tenants)
        h;
  edit_tenants = λ db q f keeps h.
      tenants_grow db.tenants _ db
        (λ id. λ there.
          is_some-find_by-update_where (is_tenant id) q f db.tenants
            (λ t. ap (λ i. i == id) (keeps t))
          ∙ there)
        h;
  number_device = λ db h. record {
    device_tenants = h.device_tenants;
    grant_tenants = h.grant_tenants;
    approvals = h.approvals;
    device_ids =
        ids_below_raise Device.id db.next_device (db.next_device + 1) db.devices (omega arith)
          h.device_ids;
    grant_ids = h.grant_ids;
  };
  add_device = λ db now tenant_id public_key served h.
      let row = new_device now db.next_device tenant_id public_key in
      record {
        device_tenants = rw served h.device_tenants;
        grant_tenants = h.grant_tenants;
        approvals =
            approvals-Stays db.devices (row ∷ db.devices) db.device_grants
              (Stays-cons db.devices row db.next_device h.device_ids refl) h.approvals;
        device_ids = ids_below-cons Device.id db.next_device row db.devices refl h.device_ids;
        grant_ids = h.grant_ids;
      };
  edit_devices = λ db q f edit h. record {
    device_tenants =
        all-update_where _ q f db.devices (λ d e k. rw (edit.keeps_tenant d) k) h.device_tenants;
    grant_tenants = h.grant_tenants;
    approvals =
        approvals-Stays db.devices _ db.device_grants (Stays-update_where db.devices q f edit)
          h.approvals;
    device_ids =
        ids_below-update_where Device.id db.next_device q f db.devices edit.keeps_id ∙ h.device_ids;
    grant_ids = h.grant_ids;
  };
  number_grant = λ db h. record {
    device_tenants = h.device_tenants;
    grant_tenants = h.grant_tenants;
    approvals = h.approvals;
    device_ids = h.device_ids;
    grant_ids =
        ids_below_raise DeviceGrant.id db.next_grant (db.next_grant + 1) db.device_grants
          (omega arith) h.grant_ids;
  };
  add_grant = λ db now tenant_id csr_pem r served fresh h. record {
    device_tenants = h.device_tenants;
    grant_tenants = rw served h.grant_tenants;
    approvals = h.approvals;
    device_ids = h.device_ids;
    grant_ids =
        ids_below-cons DeviceGrant.id db.next_grant
          (new_grant now db.next_grant tenant_id csr_pem r) db.device_grants refl h.grant_ids;
  };
  approve = approve_kept;
  announce = λ db events notices h. h;
}
