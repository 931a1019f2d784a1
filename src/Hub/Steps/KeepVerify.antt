-- ===== src/Hub/Steps/KeepVerify.antt =====
-- The handlers of RFC 8628 keep what the changes to the tables keep.
use wkp.Base.{
  ℕ, String, ◌≡◌, refl, sym, ap, ◌∙◌, inl, inr, Bool, true, false, not, ◌||◌, Option, none, some,
  ◌∷◌, arith, ==_iff, Option-cases, is_some,
}
use wkp.Str.{Text}
use wkp.Base.Branch.{branch}
use wkp.Hub.Store.{Result, ok, err, Db, World, Device, Tenant, DeviceGrant, find_by}
use wkp.Hub.Control.{
  is_device, has_slug, has_key, new_device, register_device, find_tenant_by_slug, find_device_by_id,
}
use wkp.Hub.Grants.{
  Random, new_grant, has_device_code, has_user_code, insert_grant, create_device_grant,
  set_approved, approved_with, approved_or, register_approved, approve_from, approve_grant,
  find_grant_by_user_code, is_grant_expired,
}
use wkp.Hub.Reply.{Handler, reply, match_result}
use wkp.Hub.Gate.Rules.{statement_rule}
use wkp.Hub.Enrol.{
  internal, html_internal, CsrCheck, DeviceCodeRequest, grant_for, codes_of, handle_device_code,
  Signing, Signed, issue_for, issued_of, approved_page, approve_with_key, sign_and_approve,
  is_certified, unless_certified, approve_or_retry, verify_grant, verify_code,
}
use wkp.Hub.Tables.{approval_of, approval_holds, has_tenant, owns, IsKept}
use wkp.Hub.Steps.Keep.{
  statement_kept, query_kept, resume_kept, connect_kept, issue_device_certificate_kept,
}
use wkp.Hub.Rows.{all-find_by, missing_of}

-- The two tests of an insertion that refers to a tenant.
served_of : (a b : Bool) → (a || not b) ≡ false → b ≡ true
served_of a b h = ground (arith, h)

module _ (I : Db → Type 0) (k : IsKept I) where
  insert_grant_kept :
      (now tenant_id : ℕ) (csr_pem : String) (r : Random) (w : World)
      → I w.db
      → I (insert_grant now tenant_id csr_pem r w).1.db
  unfolding insert_grant
  insert_grant_kept now tenant_id csr_pem r = statement_kept I k _ λ db h.
      let row = new_grant now db.next_grant tenant_id csr_pem r in
      let taken =
        is_some (find_by (has_device_code row.device_code) db.device_grants)
        || is_some (find_by (has_user_code row.user_code) db.device_grants) in
      branch (λ (x : Result DeviceGrant × Db). I x.1)
        (taken || not (has_tenant db.tenants tenant_id)) _ _ (λ _. k.number_grant db h)
        (λ e.
          k.add_grant db now tenant_id csr_pem r (served_of taken _ e)
            (missing_of _ (ground (arith, e))) h)

  pub create_device_grant_kept :
      (now tenant_id : ℕ) (csr_pem : String) (random : Option Random) (w : World)
      → I w.db
      → I (create_device_grant now tenant_id csr_pem random w).1.db
  unfolding create_device_grant
  create_device_grant_kept now tenant_id csr_pem none w h = h
  create_device_grant_kept now tenant_id csr_pem (some r) w h =
      insert_grant_kept now tenant_id csr_pem r w h

  approved_with_kept :
      (grant : DeviceGrant) (p : DeviceGrant → Bool) (device : Device) (w : World)
      → find_by p w.db.device_grants ≡ some grant
      → grant.approved_device_id ≡ none
      → owns grant.tenant_id (find_by (is_device device.id) w.db.devices) ≡ true
      → I w.db
      → I (approved_with grant device w).1.db
  unfolding set_approved
  approved_with_kept grant p device w found waiting own h =
      statement_rule
        (λ (x : Result Unit × World).
          I
            (elim x.0 as (λ _. Result Device × World) [
              | ok _ ↦ (ok device, x.1)
              | err e ↦ (err e, x.1)
            ]).1.db)
        _ w (λ fs. h) (λ fs. k.approve w.db p grant device.id found waiting own h)

  pub register_device_kept :
      (now tenant_id : ℕ) (public_key : String) (w : World)
      → I w.db
      → I (register_device now tenant_id public_key w).1.db
  unfolding register_device
  register_device_kept now tenant_id public_key = statement_kept I k _ λ db h.
      let taken = is_some (find_by (has_key public_key) db.devices) in
      branch (λ (x : Result Device × Db). I x.1) (taken || not (has_tenant db.tenants tenant_id)) _
        _ (λ _. k.number_device db h)
        (λ e. k.add_device db now tenant_id public_key (served_of taken _ e) h)

  -- The device is registered, and the grant then names it, or one of the two fails.
  register_approved_kept :
      (now : ℕ) (grant : DeviceGrant) (p : DeviceGrant → Bool) (public_key : String) (w : World)
      → find_by p w.db.device_grants ≡ some grant
      → grant.approved_device_id ≡ none
      → I w.db
      → I (register_approved now grant public_key w).1.db
  unfolding register_approved register_device
  register_approved_kept now grant p public_key w found waiting h =
      let then_approve : Result Device × World → Result Device × World =
        λ x. elim x.0 [ ok d ↦ approved_with grant d x.1 | err e ↦ (err e, x.1) ] in
      let row = new_device now w.db.next_device grant.tenant_id public_key in
      let own : owns grant.tenant_id (find_by (is_device w.db.next_device) (row ∷ w.db.devices))
          ≡ true =
        rw ((==_iff w.db.next_device w.db.next_device).1 refl)
          ((==_iff grant.tenant_id grant.tenant_id).1 refl) in
      let taken = is_some (find_by (has_key public_key) w.db.devices) in
      statement_rule (λ x. I (then_approve x).1.db) _ w (λ fs. h)
        λ fs.
          branch
            (λ (x : Result Device × Db).
              I (then_approve (x.0, record { db = x.1; faults = fs })).1.db)
            (taken || not (has_tenant w.db.tenants grant.tenant_id)) _ _
            (λ _. k.number_device w.db h)
            (λ e.
              approved_with_kept grant p row _ found waiting own
                (k.add_device w.db now grant.tenant_id public_key (served_of taken _ e) h))

  -- A grant that names a device names one that is there.
  approved_there :
      (db : Db) (grant : DeviceGrant) (p : DeviceGrant → Bool) (device_id : ℕ)
      → find_by p db.device_grants ≡ some grant
      → grant.approved_device_id ≡ some device_id
      → I db
      → owns grant.tenant_id (find_by (is_device device_id) db.devices) ≡ true
  approved_there db grant p device_id found approved h =
      ap (approval_of db.devices grant.tenant_id) (sym approved)
      ∙ all-find_by (approval_holds db.devices) p db.device_grants grant
          (k.references db h).approvals found

  approve_from_kept :
      (now : ℕ) (grant : DeviceGrant) (p : DeviceGrant → Bool) (public_key : String) (o : Option ℕ)
      (w : World)
      → find_by p w.db.device_grants ≡ some grant
      → grant.approved_device_id ≡ o
      → I w.db
      → I (approve_from now grant public_key o w).1.db
  unfolding find_device_by_id
  approve_from_kept now grant p public_key none w found e h =
      register_approved_kept now grant p public_key w found e h
  approve_from_kept now grant p public_key (some device_id) w found e h =
      let or_register : Result (Option Device) × World → Result Device × World =
        λ x. elim x.0 [ ok o ↦ approved_or now grant public_key o x.1 | err e ↦ (err e, x.1) ] in
      let there = approved_there w.db grant p device_id found e h in
      statement_rule (λ x. I (or_register x).1.db)
        (λ db. (ok (find_by (is_device device_id) db.devices), db)) w (λ fs. h)
        (λ fs. elim (Option-cases (find_by (is_device device_id) w.db.devices)) [
          | inl missing ↦ absurd (ground (arith, there, missing))
          | inr (device, known) ↦ rw known h
        ])

  issue_for_kept :
      (signed : Signed) (device : Device) (w : World) → I w.db → I (issue_for signed device w).1.db
  issue_for_kept signed device w h =
      resume_kept I k html_internal (λ (_ : Unit). reply approved_page) (λ _ w' h'. h') _
        (issue_device_certificate_kept I k device.id (issued_of signed) w h)

  approve_with_key_kept :
      (now : ℕ) (grant : DeviceGrant) (p : DeviceGrant → Bool) (signed : Signed)
      (public_key : Option String) (w : World)
      → find_by p w.db.device_grants ≡ some grant
      → I w.db
      → I (approve_with_key now grant signed public_key w).1.db
  unfolding approve_with_key approve_grant
  approve_with_key_kept now grant p signed none w found h = h
  approve_with_key_kept now grant p signed (some public_key) w found h =
      resume_kept I k html_internal (issue_for signed) (issue_for_kept signed) _
        (approve_from_kept now grant p public_key grant.approved_device_id w found refl h)

  sign_and_approve_kept :
      (signing : Signing) (now : ℕ) (grant : DeviceGrant) (p : DeviceGrant → Bool)
      (o : Option Signed) (w : World)
      → find_by p w.db.device_grants ≡ some grant
      → I w.db
      → I (sign_and_approve signing now grant o w).1.db
  unfolding sign_and_approve
  sign_and_approve_kept signing now grant p none w found h = h
  sign_and_approve_kept signing now grant p (some signed) w found h =
      approve_with_key_kept now grant p signed (signing.openssh_public_key signed.public_key_raw) w
        found h

  approve_or_retry_kept :
      (signing : Signing) (now : ℕ) (grant : DeviceGrant) (p : DeviceGrant → Bool) (o : Option ℕ)
      (w : World)
      → find_by p w.db.device_grants ≡ some grant
      → I w.db
      → I (approve_or_retry signing now grant o w).1.db
  unfolding find_device_by_id
  approve_or_retry_kept signing now grant p none w found h =
      sign_and_approve_kept signing now grant p (signing.sign_device_csr grant.csr_pem) w found h
  approve_or_retry_kept signing now grant p (some device_id) w found h =
      let look_up : Db → Option Device = λ db. find_by (is_device device_id) db.devices in
      query_kept I k look_up html_internal (unless_certified signing now grant) w
        (λ fs.
          branch (λ (f : Handler). I (f (record { db = w.db; faults = fs })).1.db)
            (is_certified (look_up w.db)) _ _ (λ _. h)
            (λ _.
              sign_and_approve_kept signing now grant p (signing.sign_device_csr grant.csr_pem)
                (record { db = w.db; faults = fs }) found h))
        h

  verify_grant_kept :
      (signing : Signing) (now : ℕ) (user_code : Text) (o : Option DeviceGrant) (w : World)
      → find_by (has_user_code user_code) w.db.device_grants ≡ o
      → I w.db
      → I (verify_grant signing now o w).1.db
  verify_grant_kept signing now user_code none w found h = h
  verify_grant_kept signing now user_code (some grant) w found h =
      branch (λ (f : Handler). I (f w).1.db) (is_grant_expired now grant) _ _ (λ _. h)
        (λ _.
          approve_or_retry_kept signing now grant (has_user_code user_code) grant.approved_device_id
            w found h)

  pub verify_code_kept :
      (signing : Signing) (now : ℕ) (user_code : Text) (w : World)
      → I w.db
      → I (verify_code signing now user_code w).1.db
  unfolding verify_code find_grant_by_user_code
  verify_code_kept signing now user_code w h =
      let look_up : Db → Option DeviceGrant =
        λ db. find_by (has_user_code user_code) db.device_grants in
      let next = verify_grant signing now in
      connect_kept I k html_internal
        (λ _. match_result (find_grant_by_user_code user_code) html_internal next) w
        (λ fs.
          query_kept I k look_up html_internal next (record { db = w.db; faults = fs })
            (λ fs'.
              verify_grant_kept signing now user_code (look_up w.db)
                (record { db = w.db; faults = fs' }) refl h)
            h)
        h

  grant_for_kept :
      (now : ℕ) (csr_pem : String) (random : Option Random) (o : Option Tenant) (w : World)
      → I w.db
      → I (grant_for now csr_pem random o w).1.db
  grant_for_kept now csr_pem random none w h = h
  grant_for_kept now csr_pem random (some tenant) w h =
      resume_kept I k internal (λ g. reply (codes_of g)) (λ g w' h'. h') _
        (create_device_grant_kept now tenant.id csr_pem random w h)

  pub handle_device_code_kept :
      (check : CsrCheck) (now : ℕ) (random : Option Random) (r : Option DeviceCodeRequest)
      (w : World)
      → I w.db
      → I (handle_device_code check now random r w).1.db
  unfolding handle_device_code find_tenant_by_slug
  handle_device_code_kept check now random none w h = h
  handle_device_code_kept check now random (some r) w h =
      let look_up : Db → Option Tenant = λ db. find_by (has_slug r.tenant_slug) db.tenants in
      let next = grant_for now r.csr_pem random in
      branch (λ (f : Handler). I (f w).1.db) (check r.csr_pem) _ _
        (λ _.
          connect_kept I k internal
            (λ _. match_result (find_tenant_by_slug r.tenant_slug) internal next) w
            (λ fs.
              query_kept I k look_up internal next (record { db = w.db; faults = fs })
                (λ fs'.
                  grant_for_kept now r.csr_pem random (look_up w.db)
                    (record { db = w.db; faults = fs' }) h)
                h)
            h)
        (λ _. h)
