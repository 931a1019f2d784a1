-- ===== src/Hub/Tables/Revoked.antt =====
-- A revocation is final.
use wkp.Base.{
  ℕ, ◌≡◌, refl, sym, ap, ◌∙◌, inl, inr, Bool, true, false, Option, none, some, List, ◌∷◌, arith,
  ◌==◌, ==_iff, Bool-cases, Option-cases, is_some,
}
use wkp.Hub.Store.{Db, Device, find_by, update_where}
use wkp.Hub.Control.{is_device}
use wkp.Hub.Rows.{find_by-update_where, find_by_passes, ids_below, find_by_below}
use wkp.Hub.Tables.{IsWellFormed, IsEdit, IsKept}
use wkp.Hub.Tables.WellFormed.{IsWellFormed-IsKept}

abbrev pub is_off : Option Device → Bool
is_off none = false
is_off (some d) = is_some d.revoked_at

-- The device with this number is there and is revoked, and the references hold.
pub record IsRevoked (id : ℕ) (db : Db) : Type 0 where
  pub references : IsWellFormed db
  pub off : is_off (find_by (is_device id) db.devices) ≡ true

off-cons :
    (devices : List Device) (row : Device) (n id : ℕ)
    → ids_below Device.id n devices ≡ true
    → row.id ≡ n
    → is_off (find_by (is_device id) devices) ≡ true
    → is_off (find_by (is_device id) (row ∷ devices)) ≡ true
off-cons devices row n id below e h = elim (Option-cases (find_by (is_device id) devices)) [
  | inl missing ↦ absurd (ground (arith, h, missing))
  | inr (d, found) ↦
      let less = find_by_below Device.id n (is_device id) devices d below found in
      let same : (d.id == id) ≡ true = find_by_passes (is_device id) devices d found in
      let apart : (row.id == id) ≡ false =
        ground (arith, less, same, e, ==_iff d.id id, ==_iff row.id id) in
      rw apart h
]

off-update_where :
    (devices : List Device) (q : Device → Bool) (f : Device → Device) (id : ℕ)
    → IsEdit f
    → is_off (find_by (is_device id) devices) ≡ true
    → is_off (find_by (is_device id) (update_where q f devices)) ≡ true
off-update_where devices q f id edit h = elim (Option-cases (find_by (is_device id) devices)) [
  | inl missing ↦ absurd (ground (arith, h, missing))
  | inr (d, found) ↦
      let found' =
        find_by-update_where (is_device id) q f devices d (λ y. ap (λ i. i == id) (edit.keeps_id y))
          found in
      let own : is_some d.revoked_at ≡ true = ap is_off (sym found) ∙ h in
      elim (Bool-cases (q d)) [
        | inl e ↦ rw (found', e) (edit.keeps_revoked d own)
        | inr e ↦ rw (found', e) own
      ]
]

-- A revoked device stays revoked under each change to the tables.
pub IsRevoked-IsKept : (id : ℕ) → IsKept (IsRevoked id)
IsRevoked-IsKept id = record {
  references = λ db h. h.references;
  number_tenant = λ db h. record {
    references = IsWellFormed-IsKept.number_tenant db h.references;
    off = h.off;
  };
  add_tenant = λ db now slug h. record {
    references = IsWellFormed-IsKept.add_tenant db now slug h.references;
    off = h.off;
  };
  edit_tenants = λ db q f keeps h. record {
    references = IsWellFormed-IsKept.edit_tenants db q f keeps h.references;
    off = h.off;
  };
  number_device = λ db h. record {
    references = IsWellFormed-IsKept.number_device db h.references;
    off = h.off;
  };
  add_device = λ db now tenant_id public_key served h. record {
    references = IsWellFormed-IsKept.add_device db now tenant_id public_key served h.references;
    off = off-cons db.devices _ db.next_device id h.references.device_ids refl h.off;
  };
  edit_devices = λ db q f edit h. record {
    references = IsWellFormed-IsKept.edit_devices db q f edit h.references;
    off = off-update_where db.devices q f id edit h.off;
  };
  number_grant =
      λ db h. record { references = IsWellFormed-IsKept.number_grant db h.references; off = h.off };
  add_grant = λ db now tenant_id csr_pem r served fresh h. record {
    references = IsWellFormed-IsKept.add_grant db now tenant_id csr_pem r served fresh h.references;
    off = h.off;
  };
  approve = λ db p grant device_id found waiting own h. record {
    references = IsWellFormed-IsKept.approve db p grant device_id found waiting own h.references;
    off = h.off;
  };
  announce = λ db events notices h. record {
    references = IsWellFormed-IsKept.announce db events notices h.references;
    off = h.off;
  };
}
