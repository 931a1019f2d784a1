-- ===== src/Hub/Steps/Keep.antt =====
-- The operations and the handlers keep what the changes to the tables keep.
use wkp.Base.{
  ℕ, String, ◌≡◌, refl, Bool, true, false, not, Option, none, some, List, ◌∷◌, ◌==◌, is_empty,
  is_some,
}
use wkp.Str.{Text, trim}
use wkp.Base.Branch.{branch}
use wkp.Hub.Store.{
  Error, Result, ok, err, Db, World, Action, Device, Tenant, find_by, statement, query,
}
use text.Mathlib.Text.{◌==◌ as str_eq}
use wkp.Hub.Control.{
  Issued, with_certificate, issue_device_certificate, is_taken, is_tenant, is_device, has_slug,
  has_serial, update_tenant, create_tenant, set_always_warm, record_pod_started, record_pod_stopped,
  touch_last_active, revoke_device, reset_all_connections, reset_all_payload, notified, is_active,
  find_tenant_by_slug, find_device_by_cert_serial,
}
use wkp.Hub.Reply.{Rendered, Handler, status_only, match_result, resume, connect}
use wkp.Hub.Gate.{
  Pods, GitRequest, handle_git_http, with_serial, with_device, with_tenant, with_pod,
}
use wkp.Hub.Gate.Rules.{statement_rule, match_rule, query_rule}
use wkp.Hub.Tables.{IsEdit, IsKept}

certificate-IsEdit : (c : Issued) → IsEdit (with_certificate c)
certificate-IsEdit c = record {
  keeps_id = λ d. refl;
  keeps_tenant = λ d. refl;
  keeps_revoked = λ d off. off;
  keeps_certified = λ d on. refl;
}

revoked-IsEdit : (now : ℕ) → IsEdit (λ d. record d { revoked_at = some now })
revoked-IsEdit now = record {
  keeps_id = λ d. refl;
  keeps_tenant = λ d. refl;
  keeps_revoked = λ d off. refl;
  keeps_certified = λ d on. on;
}

module _ (I : Db → Type 0) (k : IsKept I) where
  pub statement_kept :
      {A : Type 0}
      → (f : Db → Result A × Db) → ((db : Db) → I db → I (f db).1)
      → (w : World) → I w.db
      → I (statement f w).1.db
  statement_kept f keeps w h = statement_rule (λ x. I x.1.db) f w (λ fs. h) (λ fs. keeps w.db h)

  -- A query changes nothing, and the handler goes on from the same tables.
  pub query_kept :
      {A : Type 0}
      → (f : Db → A) → (failed : Error → Rendered) → (next : A → Handler) → (w : World)
      → ((fs : List Bool) → I (next (f w.db) (record { db = w.db; faults = fs })).1.db)
      → I w.db
      → I (match_result (query f) failed next w).1.db
  query_kept f failed next w goes_on h =
      query_rule (λ x. I x.1.db) f failed next w (λ fs. h) goes_on

  pub resume_kept :
      {A : Type 0}
      → (failed : Error → Rendered) → (next : A → Handler)
      → ((a : A) (w : World) → I w.db → I (next a w).1.db)
      → (x : Result A × World) → I x.1.db
      → I (resume failed next x).1.db
  resume_kept failed next goes_on (ok a, w) h = goes_on a w h
  resume_kept failed next goes_on (err e, w) h = h

  pub connect_kept :
      (failed : Error → Rendered) (next : Unit → Handler) (w : World)
      → ((fs : List Bool) → I (next tt (record { db = w.db; faults = fs })).1.db)
      → I w.db
      → I (match_result connect failed next w).1.db
  unfolding connect
  connect_kept failed next w goes_on h =
      match_rule (λ x. I x.1.db) (λ db. (ok tt, db)) failed next w (λ fs. h) goes_on

  update_tenant_kept :
      (id : ℕ) (f : Tenant → Tenant)
      → ((t : Tenant) → (f t).id ≡ t.id)
      → (w : World) → I w.db
      → I (update_tenant id f w).1.db
  update_tenant_kept id f keeps = statement_kept _ λ db h.
      branch (λ (x : Result Unit × Db). I x.1) (is_some (find_by (is_tenant id) db.tenants)) _ _
        (λ _. k.edit_tenants db (is_tenant id) f keeps h) (λ _. h)

  pub create_tenant_kept :
      (now : ℕ) (slug : Text) (w : World) → I w.db → I (create_tenant now slug w).1.db
  unfolding create_tenant
  create_tenant_kept now slug = statement_kept _ λ db h.
      branch (λ (x : Result Tenant × Db). I x.1) (is_some (find_by (has_slug slug) db.tenants)) _ _
        (λ _. k.number_tenant db h) (λ _. k.add_tenant db now slug h)

  pub set_always_warm_kept :
      (id : ℕ) (always_warm : Bool) (w : World) → I w.db → I (set_always_warm id always_warm w).1.db
  unfolding set_always_warm
  set_always_warm_kept id always_warm = update_tenant_kept id _ (λ t. refl)

  pub record_pod_stopped_kept : (id : ℕ) (w : World) → I w.db → I (record_pod_stopped id w).1.db
  unfolding record_pod_stopped
  record_pod_stopped_kept id = update_tenant_kept id _ (λ t. refl)

  pub revoke_device_kept : (now id : ℕ) (w : World) → I w.db → I (revoke_device now id w).1.db
  unfolding revoke_device
  revoke_device_kept now id = statement_kept _ λ db h.
      k.announce _ db.connection_reset_events
        (notified (find_by (is_active id) db.devices) db.notices)
        (k.edit_devices db (is_active id) _ (revoked-IsEdit now) h)

  pub reset_all_connections_kept :
      (performed_by : Text) (w : World) → I w.db → I (reset_all_connections performed_by w).1.db
  unfolding reset_all_connections
  reset_all_connections_kept performed_by w h =
      branch (λ (m : Action Unit). I (m w).1.db) (is_empty (trim performed_by)) _ _ (λ _. h)
        (λ _.
          statement_kept _
            (λ db h'.
              k.announce db (trim performed_by ∷ db.connection_reset_events)
                (reset_all_payload ∷ db.notices) h')
            w h)

  pub issue_device_certificate_kept :
      (id : ℕ) (c : Issued) (w : World) → I w.db → I (issue_device_certificate id c w).1.db
  unfolding issue_device_certificate
  issue_device_certificate_kept id c = statement_kept _ λ db h.
      let P = λ (x : Result Unit × Db). I x.1 in
      branch P (not (is_some (find_by (is_device id) db.devices))) _ _ (λ _. h)
        λ _.
          branch P (is_some (find_by (is_taken id c.cert_serial) db.devices)) _ _ (λ _. h)
            (λ _. k.edit_devices db (is_device id) (with_certificate c) (certificate-IsEdit c) h)

  -- A git request changes times and the state of a pod at most.
  tenant_kept :
      (pods : Pods) (now : ℕ) (get : Bool) (r : GitRequest) (device : Device) (o : Option Tenant)
      (w : World)
      → I w.db
      → I (with_tenant pods now get r device o w).1.db
  unfolding touch_last_active with_pod record_pod_started
  tenant_kept pods now get r device none w h = h
  tenant_kept pods now get r device (some tenant) w h =
      let P = λ (f : Handler). ((w' : World) → I w'.db → I (f w').1.db) in
      let pod_kept : P (with_pod pods now get r tenant) =
        branch P tenant.pod_running _ _ (λ _ w' h'. h')
          λ _.
            branch P (pods.start_pod r.tenant_slug) _ _
              (λ _ w' h'. update_tenant_kept tenant.id _ (λ t. refl) w' h') (λ _ w' h'. h') in
      branch P (device.tenant_id == tenant.id) _ _
        (λ _ w' h'. pod_kept _ (update_tenant_kept tenant.id _ (λ t. refl) w' h')) (λ _ w' h'. h') w
        h

  device_kept :
      (pods : Pods) (now : ℕ) (get : Bool) (r : GitRequest) (o : Option Device) (w : World)
      → I w.db
      → I (with_device pods now get r o w).1.db
  unfolding find_tenant_by_slug
  device_kept pods now get r none w h = h
  device_kept pods now get r (some device) w h =
      branch (λ (f : Handler). I (f w).1.db) (is_some device.revoked_at) _ _ (λ _. h)
        λ _.
          let look_up : Db → Option Tenant = λ db. find_by (has_slug r.tenant_slug) db.tenants in
          query_kept look_up (λ _. status_only 500) (with_tenant pods now get r device) w
            (λ fs.
              tenant_kept pods now get r device (look_up w.db) (record { db = w.db; faults = fs })
                h)
            h

  serial_kept :
      (pods : Pods) (now : ℕ) (get : Bool) (r : GitRequest) (peer : Option String) (w : World)
      → I w.db
      → I (with_serial pods now get r peer w).1.db
  unfolding find_device_by_cert_serial
  serial_kept pods now get r none w h = h
  serial_kept pods now get r (some serial) w h =
      let look_up : Db → Option Device = λ db. find_by (has_serial serial) db.devices in
      let failed : Error → Rendered = λ _. status_only 500 in
      let next = with_device pods now get r in
      connect_kept failed (λ _. match_result (find_device_by_cert_serial serial) failed next) w
        (λ fs.
          query_kept look_up failed next (record { db = w.db; faults = fs })
            (λ fs'.
              device_kept pods now get r (look_up w.db) (record { db = w.db; faults = fs' }) h)
            h)
        h

  pub handle_git_http_kept :
      (pods : Pods) (now : ℕ) (r : GitRequest) (peer : Option String) (w : World)
      → I w.db
      → I (handle_git_http pods now r peer w).1.db
  unfolding handle_git_http
  handle_git_http_kept pods now r peer w h =
      let P = λ (f : Handler). I (f w).1.db in
      branch P (str_eq r.method "GET") _ _ (λ _. serial_kept pods now true r peer w h)
        λ _.
          branch P (str_eq r.method "POST") _ _ (λ _. serial_kept pods now false r peer w h)
            (λ _. h)
