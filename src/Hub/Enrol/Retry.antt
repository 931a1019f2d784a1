-- ===== src/Hub/Enrol/Retry.antt =====
-- A form that is sent again.
use wkp.Base.{ℕ, String, ◌≡◌, refl, sym, subst, inl, inr, Option, some, Bool-cases}
use wkp.Str.{Text}
use wkp.Hub.Store.{ok, Db, World, Device, DeviceGrant, find_by}
use wkp.Hub.Control.{is_device, find_device_by_id}
use wkp.Hub.Grants.{has_user_code, find_grant_by_user_code, is_grant_expired}
use wkp.Hub.Reply.{Rendered, match_result, connect}
use wkp.Hub.Gate.Rules.{match_rule, query_rule}
use wkp.Hub.Enrol.{
  html_internal, Signing, verify_code, verify_grant, approve_or_retry, unless_certified,
}

-- The grant of the user code is approved for a device that has a certificate.
pub record IsDone (db : Db) (user_code : Text) : Type 0 where
  pub grant : DeviceGrant
  pub device : Device
  pub device_id : ℕ
  pub pem : String
  pub granted : find_by (has_user_code user_code) db.device_grants ≡ some grant
  pub approved : grant.approved_device_id ≡ some device_id
  pub registered : find_by (is_device device_id) db.devices ≡ some device
  pub certified : device.certificate_pem ≡ some pem

abbrev Kept : Db → Rendered × World → Type 0
Kept db (r, w) = w.db ≡ db

approved-Kept :
    (signing : Signing) (now : ℕ) (user_code : Text) (w : World) (i : IsDone w.db user_code)
    → Kept w.db (approve_or_retry signing now i.grant i.grant.approved_device_id w)
unfolding find_device_by_id
approved-Kept signing now user_code w i =
    let look_up : Db → Option Device = λ db. find_by (is_device i.device_id) db.devices in
    let kept =
      query_rule (Kept w.db) look_up html_internal (unless_certified signing now i.grant) w
        (λ fs. refl) (λ fs. rw (i.registered, i.certified) refl) in
    subst (λ o. Kept w.db (approve_or_retry signing now i.grant o w)) (sym i.approved) kept

-- A form sent again for a code whose device has its certificate changes nothing, whatever statements
-- fail: no second certificate is issued and no second device is registered.
pub verify_code_idempotent :
    (signing : Signing) (now : ℕ) (user_code : Text) (w : World)
    → IsDone w.db user_code
    → (verify_code signing now user_code w).1.db ≡ w.db
unfolding verify_code connect find_grant_by_user_code
verify_code_idempotent signing now user_code w i =
    let look_up : Db → Option DeviceGrant =
      λ db. find_by (has_user_code user_code) db.device_grants in
    let next = verify_grant signing now in
    match_rule (Kept w.db) (λ db. (ok tt, db)) html_internal
      (λ _. match_result (find_grant_by_user_code user_code) html_internal next) w (λ fs. refl)
      λ fs.
        query_rule (Kept w.db) look_up html_internal next (record { db = w.db; faults = fs })
          (λ fs'. refl)
          λ fs'. elim (Bool-cases (is_grant_expired now i.grant)) [
            | inl e ↦ rw (i.granted, e) refl
            | inr e ↦
                rw (i.granted, e)
                  (approved-Kept signing now user_code (record { db = w.db; faults = fs' }) i)
          ]
