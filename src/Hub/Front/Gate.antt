-- ===== src/Hub/Front/Gate.antt =====
-- Only a git request is answered by a pod, and only for a device of the tenant.
pub mod Served
use wkp.Base.{
  ℕ, zero, suc, ◌+◌, ◌-◌, ◌*◌, ◌/◌, ◌%◌, ◌^◌, ◌≤◌, ◌<◌, min, max, String, ◌≡◌, refl, sym, ap, ap₂,
  ◌∙◌, subst, ◌≡⟨◌⟩◌, ◌∎, ◌≢◌, ◌↔◌, ◌⊎◌, inl, inr, Bool, true, false, not, ◌&&◌, ◌||◌, Option, none,
  some, List, [], ◌∷◌, ◌++◌, map, append-nil, append_assoc, arith, ltb, leb, ◌==◌, if◌then◌else◌,
  ==_iff, Bool-cases, Option-cases, &&-elim, length, take, drop, flatten, filter, take_while, all,
  any, is_empty, length-append, take-append, drop-append, filter_map, or_else, is_some, map_option,
  ◌>>=◌, all-append, drop_past, push_some,
}
use wkp.Base.Branch.{branch}
use wkp.Str.{Text}
use wkp.Hub.Store.{Error, Result, ok, err, Db, World, Device, Tenant, DeviceGrant}
use wkp.Hub.Control.{
  find_tenant_by_slug, find_tenant_by_id, find_device_by_id, issue_device_certificate, is_tenant,
}
use wkp.Hub.Grants.{
  Random, create_device_grant, find_grant_by_device_code, find_grant_by_user_code, is_grant_expired,
  approve_grant,
}
use wkp.Hub.Reply.{Rendered, Handler, reply, resume, match_result, connect}
use wkp.Hub.Gate.Safety.{is_from_pod}
use wkp.Hub.Enrol.{
  CsrCheck, DeviceCodeRequest, Signing, Signed, internal, html_internal, grant_for, codes_of,
  handle_device_code, with_certificate_of, token_for_device, token_for_tenant, token_for_approval,
  token_for_grant, handle_device_token, issued_of, approved_page, issue_for, approve_with_key,
  sign_and_approve, is_certified, unless_certified, approve_or_retry, verify_grant, verify_code,
}

abbrev pub Own : Rendered × World → Type 0
Own (r, w) = is_from_pod r ≡ false

-- A `match` whose branches all answer by themselves.
resume-Own :
    {A : Type 0}
    → (failed : Error → Rendered) → (next : A → Handler)
    → ((e : Error) → is_from_pod (failed e) ≡ false)
    → ((a : A) (w : World) → Own (next a w))
    → (x : Result A × World) → Own (resume failed next x)
resume-Own failed next fails goes_on (ok a, w) = goes_on a w
resume-Own failed next fails goes_on (err e, w) = fails e

grant_for-Own :
    (now : ℕ) (csr_pem : String) (random : Option Random) (o : Option Tenant) (w : World)
    → Own (grant_for now csr_pem random o w)
grant_for-Own now csr_pem random none w = refl
grant_for-Own now csr_pem random (some tenant) w =
    resume-Own internal (λ g. reply (codes_of g)) (λ e. refl) (λ g w'. refl)
      (create_device_grant now tenant.id csr_pem random w)

pub device_code-Own :
    (check : CsrCheck) (now : ℕ) (random : Option Random) (r : Option DeviceCodeRequest) (w : World)
    → Own (handle_device_code check now random r w)
unfolding handle_device_code
device_code-Own check now random none w = refl
device_code-Own check now random (some r) w =
    branch (λ (f : Handler). Own (f w)) (check r.csr_pem) _ _
      (λ _.
        resume-Own internal
          (λ _.
            match_result (find_tenant_by_slug r.tenant_slug) internal
              (grant_for now r.csr_pem random))
          (λ e. refl)
          (λ _ w'.
            resume-Own internal (grant_for now r.csr_pem random) (λ e. refl)
              (grant_for-Own now r.csr_pem random) (find_tenant_by_slug r.tenant_slug w'))
          (connect w))
      (λ _. refl)

certificate-Own :
    (root : String) (slug : Text) (device_id : ℕ) (o : Option String) (w : World)
    → Own (with_certificate_of root slug device_id o w)
certificate-Own root slug device_id none w = refl
certificate-Own root slug device_id (some pem) w = refl

token_for_device-Own :
    (root : String) (slug : Text) (device_id : ℕ) (o : Option Device) (w : World)
    → Own (token_for_device root slug device_id o w)
token_for_device-Own root slug device_id none w = refl
token_for_device-Own root slug device_id (some device) w =
    certificate-Own root slug device_id device.certificate_pem w

token_for_tenant-Own :
    (root : String) (device_id : ℕ) (o : Option Tenant) (w : World)
    → Own (token_for_tenant root device_id o w)
token_for_tenant-Own root device_id none w = refl
token_for_tenant-Own root device_id (some tenant) w =
    resume-Own internal (token_for_device root tenant.slug device_id) (λ e. refl)
      (token_for_device-Own root tenant.slug device_id) (find_device_by_id device_id w)

token_for_approval-Own :
    (root : String) (tenant_id : ℕ) (o : Option ℕ) (w : World)
    → Own (token_for_approval root tenant_id o w)
token_for_approval-Own root tenant_id none w = refl
token_for_approval-Own root tenant_id (some device_id) w =
    resume-Own internal (token_for_tenant root device_id) (λ e. refl)
      (token_for_tenant-Own root device_id) (find_tenant_by_id tenant_id w)

token_for_grant-Own :
    (root : String) (now : ℕ) (o : Option DeviceGrant) (w : World)
    → Own (token_for_grant root now o w)
token_for_grant-Own root now none w = refl
token_for_grant-Own root now (some grant) w =
    branch (λ (f : Handler). Own (f w)) (is_grant_expired now grant) _ _ (λ _. refl)
      (λ _. token_for_approval-Own root grant.tenant_id grant.approved_device_id w)

pub device_token-Own :
    (root : String) (now : ℕ) (code : Option Text) (w : World)
    → Own (handle_device_token root now code w)
unfolding handle_device_token
device_token-Own root now none w = refl
device_token-Own root now (some code) w =
    resume-Own internal
      (λ _. match_result (find_grant_by_device_code code) internal (token_for_grant root now))
      (λ e. refl)
      (λ _ w'.
        resume-Own internal (token_for_grant root now) (λ e. refl) (token_for_grant-Own root now)
          (find_grant_by_device_code code w'))
      (connect w)

approve_with_key-Own :
    (now : ℕ) (grant : DeviceGrant) (signed : Signed) (o : Option String) (w : World)
    → Own (approve_with_key now grant signed o w)
unfolding approve_with_key
approve_with_key-Own now grant signed none w = refl
approve_with_key-Own now grant signed (some public_key) w =
    resume-Own html_internal (issue_for signed) (λ e. refl)
      (λ device w'.
        resume-Own html_internal (λ (_ : Unit). reply approved_page) (λ e. refl) (λ _ w''. refl)
          (issue_device_certificate device.id (issued_of signed) w'))
      (approve_grant now grant public_key w)

sign_and_approve-Own :
    (signing : Signing) (now : ℕ) (grant : DeviceGrant) (o : Option Signed) (w : World)
    → Own (sign_and_approve signing now grant o w)
unfolding sign_and_approve
sign_and_approve-Own signing now grant none w = refl
sign_and_approve-Own signing now grant (some signed) w =
    approve_with_key-Own now grant signed (signing.openssh_public_key signed.public_key_raw) w

approve_or_retry-Own :
    (signing : Signing) (now : ℕ) (grant : DeviceGrant) (o : Option ℕ) (w : World)
    → Own (approve_or_retry signing now grant o w)
approve_or_retry-Own signing now grant none w =
    sign_and_approve-Own signing now grant (signing.sign_device_csr grant.csr_pem) w
approve_or_retry-Own signing now grant (some device_id) w =
    resume-Own html_internal (unless_certified signing now grant) (λ e. refl)
      (λ found w'.
        branch (λ (f : Handler). Own (f w')) (is_certified found) _ _ (λ _. refl)
          (λ _. sign_and_approve-Own signing now grant (signing.sign_device_csr grant.csr_pem) w'))
      (find_device_by_id device_id w)

verify_grant-Own :
    (signing : Signing) (now : ℕ) (o : Option DeviceGrant) (w : World)
    → Own (verify_grant signing now o w)
verify_grant-Own signing now none w = refl
verify_grant-Own signing now (some grant) w =
    branch (λ (f : Handler). Own (f w)) (is_grant_expired now grant) _ _ (λ _. refl)
      (λ _. approve_or_retry-Own signing now grant grant.approved_device_id w)

pub verify_code-Own :
    (signing : Signing) (now : ℕ) (user_code : Text) (w : World)
    → Own (verify_code signing now user_code w)
unfolding verify_code
verify_code-Own signing now user_code w =
    resume-Own html_internal
      (λ _.
        match_result (find_grant_by_user_code user_code) html_internal (verify_grant signing now))
      (λ e. refl)
      (λ _ w'.
        resume-Own html_internal (verify_grant signing now) (λ e. refl)
          (verify_grant-Own signing now) (find_grant_by_user_code user_code w'))
      (connect w)
