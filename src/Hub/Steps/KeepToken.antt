-- ===== src/Hub/Steps/KeepToken.antt =====
-- The polls of `/device/token` keep what the changes to the tables keep.
use wkp.Base.{ℕ, String, Option, none, some}
use wkp.Str.{Text}
use wkp.Base.Branch.{branch}
use wkp.Hub.Store.{Db, World, Device, Tenant, DeviceGrant, find_by}
use wkp.Hub.Control.{is_tenant, is_device, find_tenant_by_id, find_device_by_id}
use wkp.Hub.Grants.{has_device_code, find_grant_by_device_code, is_grant_expired}
use wkp.Hub.Reply.{Handler, match_result}
use wkp.Hub.Enrol.{
  internal, token_for_device, with_certificate_of, token_for_tenant, token_for_approval,
  token_for_grant, handle_device_token,
}
use wkp.Hub.Tables.{IsKept}
use wkp.Hub.Steps.Keep.{query_kept, connect_kept}

module _ (I : Db → Type 0) (k : IsKept I) where
  certificate_kept :
      (root : String) (slug : Text) (device_id : ℕ) (o : Option String) (w : World)
      → I w.db
      → I (with_certificate_of root slug device_id o w).1.db
  certificate_kept root slug device_id none w h = h
  certificate_kept root slug device_id (some pem) w h = h

  token_for_device_kept :
      (root : String) (slug : Text) (device_id : ℕ) (o : Option Device) (w : World)
      → I w.db
      → I (token_for_device root slug device_id o w).1.db
  token_for_device_kept root slug device_id none w h = h
  token_for_device_kept root slug device_id (some device) w h =
      certificate_kept root slug device_id device.certificate_pem w h

  token_for_tenant_kept :
      (root : String) (device_id : ℕ) (o : Option Tenant) (w : World)
      → I w.db
      → I (token_for_tenant root device_id o w).1.db
  unfolding find_device_by_id
  token_for_tenant_kept root device_id none w h = h
  token_for_tenant_kept root device_id (some tenant) w h =
      let look_up : Db → Option Device = λ db. find_by (is_device device_id) db.devices in
      query_kept I k look_up internal (token_for_device root tenant.slug device_id) w
        (λ fs.
          token_for_device_kept root tenant.slug device_id (look_up w.db)
            (record { db = w.db; faults = fs }) h)
        h

  token_for_approval_kept :
      (root : String) (tenant_id : ℕ) (o : Option ℕ) (w : World)
      → I w.db
      → I (token_for_approval root tenant_id o w).1.db
  unfolding find_tenant_by_id
  token_for_approval_kept root tenant_id none w h = h
  token_for_approval_kept root tenant_id (some device_id) w h =
      let look_up : Db → Option Tenant = λ db. find_by (is_tenant tenant_id) db.tenants in
      query_kept I k look_up internal (token_for_tenant root device_id) w
        (λ fs.
          token_for_tenant_kept root device_id (look_up w.db) (record { db = w.db; faults = fs }) h)
        h

  token_for_grant_kept :
      (root : String) (now : ℕ) (o : Option DeviceGrant) (w : World)
      → I w.db
      → I (token_for_grant root now o w).1.db
  token_for_grant_kept root now none w h = h
  token_for_grant_kept root now (some grant) w h =
      branch (λ (f : Handler). I (f w).1.db) (is_grant_expired now grant) _ _ (λ _. h)
        (λ _. token_for_approval_kept root grant.tenant_id grant.approved_device_id w h)

  pub handle_device_token_kept :
      (root : String) (now : ℕ) (code : Option Text) (w : World)
      → I w.db
      → I (handle_device_token root now code w).1.db
  unfolding handle_device_token find_grant_by_device_code
  handle_device_token_kept root now none w h = h
  handle_device_token_kept root now (some code) w h =
      let look_up : Db → Option DeviceGrant =
        λ db. find_by (has_device_code code) db.device_grants in
      let next = token_for_grant root now in
      connect_kept I k internal (λ _. match_result (find_grant_by_device_code code) internal next) w
        (λ fs.
          query_kept I k look_up internal next (record { db = w.db; faults = fs })
            (λ fs'.
              token_for_grant_kept root now (look_up w.db) (record { db = w.db; faults = fs' }) h)
            h)
        h
