-- ===== src/Hub/Steps/Final.antt =====
-- A revoked device is refused for good.
use wkp.Base.{
  ℕ, String, ◌≡◌, refl, sym, ap, ◌∙◌, subst, inl, inr, Bool, true, false, some, List, [], ◌∷◌,
  arith, ◌==◌, ==_iff, Bool-cases, Option-cases, is_some,
}
use wkp.Hub.Store.{ok, Db, World, Device, find_by, update_where}
use wkp.Hub.Control.{is_device, is_active, has_serial, revoke_device}
use wkp.Hub.Gate.{Pods, GitRequest, handle_git_http}
use wkp.Hub.Gate.Safety.{is_from_pod, handle_git_http_gated}
use wkp.Hub.Tables.{IsWellFormed}
use wkp.Hub.Tables.WellFormed.{IsWellFormed-IsKept}
use wkp.Hub.Tables.Revoked.{IsRevoked, is_off, IsRevoked-IsKept}
use wkp.Hub.Rows.{all-find_by, all-same_row, find_by_passes, find_by-update_where}
use wkp.Hub.Steps.{Steps}
use wkp.Hub.Steps.Keep.{revoke_device_kept}
use wkp.Hub.Steps.Reach.{empty_db, steps_kept, reached-IsWellFormed}

pub some_injective {ℓ} : {A : Type ℓ} {a b : A} → some a ≡ some b → a ≡ b
some_injective h = cc

revoked_rows :
    (now id : ℕ) (devices : List Device) (device : Device)
    → find_by (is_device id) devices ≡ some device
    → is_off (
        find_by
          (is_device id)
          (update_where (is_active id) (λ d. record d { revoked_at = some now }) devices))
      ≡ true
revoked_rows now id devices device found =
    let found' =
      find_by-update_where (is_device id) (is_active id) (λ d. record d { revoked_at = some now })
        devices device (λ d. refl) found in
    let own = find_by_passes (is_device id) devices device found in
    elim (Bool-cases (is_some device.revoked_at)) [
      | inl e ↦ rw (found', own, e) e
      | inr e ↦ rw (found', own, e) refl
    ]

pub revoke_device-IsRevoked :
    (now id : ℕ) (device : Device) (faults : List Bool) (db : Db)
    → IsWellFormed db
    → find_by (is_device id) db.devices ≡ some device
    → (revoke_device now id (record { db = db; faults = faults })).0 ≡ ok tt
    → IsRevoked id (revoke_device now id (record { db = db; faults = faults })).1.db
unfolding revoke_device
revoke_device-IsRevoked now id device [] db h found done = record {
  references =
      revoke_device_kept IsWellFormed IsWellFormed-IsKept now id (record { db = db; faults = [] })
        h;
  off = revoked_rows now id db.devices device found;
}
revoke_device-IsRevoked now id device (true ∷ fs) db h found done = cc
revoke_device-IsRevoked now id device (false ∷ fs) db h found done = record {
  references =
      revoke_device_kept IsWellFormed IsWellFormed-IsKept now id (record { db = db; faults = [] })
        h;
  off = revoked_rows now id db.devices device found;
}

-- Each row with the number of a revoked device is revoked.
pub revoked_row :
    (id : ℕ) (db : Db) (p : Device → Bool) (device : Device)
    → IsRevoked id db
    → find_by p db.devices ≡ some device
    → device.id ≡ id
    → is_some device.revoked_at ≡ true
revoked_row id db p device revoked known same =
    elim (Option-cases (find_by (is_device id) db.devices)) [
      | inl missing ↦ absurd (ground (arith, revoked.off, missing))
      | inr (first, found) ↦
          let own : is_some first.revoked_at ≡ true = ap is_off (sym found) ∙ revoked.off in
          let number : (first.id == id) ≡ true =
            find_by_passes (is_device id) db.devices first found in
          let rows =
            all-same_row Device.id db.next_device (is_device id) (λ d. is_some d.revoked_at)
              db.devices first revoked.references.device_ids found own in
          let row = all-find_by _ p db.devices device rows known in
          ground (arith, row, number, same, ==_iff first.id id, ==_iff device.id first.id)
    ]

revoked_refused :
    (pods : Pods) (now id : ℕ) (r : GitRequest) (serial : String) (device : Device) (w : World)
    → IsRevoked id w.db
    → find_by (has_serial serial) w.db.devices ≡ some device
    → device.id ≡ id
    → is_from_pod (handle_git_http pods now r (some serial) w).0 ≡ false
revoked_refused pods now id r serial device w revoked known same =
    elim (Bool-cases (is_from_pod (handle_git_http pods now r (some serial) w).0)) [
      | inr e ↦ e
      | inl e ↦
          let reach = handle_git_http_gated pods now r (some serial) w e in
          let presented : serial ≡ reach.serial = some_injective reach.presented in
          let found : some reach.device ≡ some device =
            sym reach.known
            ∙ ap (λ s. find_by (has_serial s) w.db.devices) (sym presented)
            ∙ known in
          let one : reach.device ≡ device = some_injective found in
          let off = revoked_row id w.db (has_serial serial) device revoked known same in
          let on : is_some device.revoked_at ≡ false =
            subst (λ d. is_some d.revoked_at ≡ false) one reach.not_revoked in
          absurd (ground (arith, on, off))
    ]

-- Once `revoke_device` has succeeded for a device of a reached state, no pod ever answers a git
-- request with the certificate on file for it, after any further requests, commands and failing
-- statements.
pub revoke_device_final :
    (faults : List Bool) (w w' : World) (now later id : ℕ) (device device' : Device) (pods : Pods)
    (r : GitRequest) (serial : String)
    → Steps (record { db = empty_db; faults = faults }) w
    → find_by (is_device id) w.db.devices ≡ some device
    → (revoke_device now id w).0 ≡ ok tt
    → Steps (revoke_device now id w).1 w'
    → find_by (has_serial serial) w'.db.devices ≡ some device'
    → device'.id ≡ id
    → is_from_pod (handle_git_http pods later r (some serial) w').0 ≡ false
revoke_device_final faults w w' now later id device device' pods r serial before there done after
      known same =
    let revoked =
      revoke_device-IsRevoked now id device w.faults w.db (reached-IsWellFormed faults w before)
        there done in
    revoked_refused pods later id r serial device' w'
      (steps_kept (IsRevoked id) (IsRevoked-IsKept id) _ w' after revoked) known same
