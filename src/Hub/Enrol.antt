-- ===== src/Hub/Enrol.antt =====
-- http.rs: the handlers of RFC 8628, by which a device gets its certificate. The parsed body of a
-- JSON request is an argument, `none` where it does not parse; so are the certificate authority, the
-- conversion of its key, and `from_utf8_lossy`.
pub mod Forms
pub mod Token
pub mod Approval
pub mod Retry
use wkp.Base.{
  ℕ, zero, suc, ◌+◌, ◌-◌, ◌*◌, ◌/◌, ◌%◌, ◌^◌, ◌≤◌, ◌<◌, min, max, String, ◌≡◌, refl, sym, ap, ap₂,
  ◌∙◌, subst, ◌≡⟨◌⟩◌, ◌∎, ◌≢◌, ◌↔◌, ◌⊎◌, inl, inr, Bool, true, false, not, ◌&&◌, ◌||◌, Option, none,
  some, List, [], ◌∷◌, ◌++◌, map, append-nil, append_assoc, arith, ltb, leb, ◌==◌, if◌then◌else◌,
  ==_iff, Bool-cases, Option-cases, &&-elim, length, take, drop, flatten, filter, take_while, all,
  any, is_empty, length-append, take-append, drop-append, filter_map, or_else, is_some, map_option,
  ◌>>=◌, all-append, drop_past, push_some,
}
use wkp.Str.{Text, codes, text_eq, strip_prefix, split_by}
use wkp.Hub.Store.{
  crypto, invalid_input, Error, Result, ok, err, Db, World, Action, Device, Tenant, DeviceGrant,
}
use wkp.Hub.Control.{
  find_tenant_by_slug, find_tenant_by_id, find_device_by_id, issue_device_certificate, Issued,
}
use wkp.Hub.Grants.{
  Random, create_device_grant, find_grant_by_device_code, find_grant_by_user_code, is_grant_expired,
  approve_grant, grant_ttl, poll_interval_seconds,
}
use wkp.Hub.Http.{percent_decode, html_escape}
use wkp.Hub.Reply.{
  Body, error_body, described, invalid_body, device_codes, token_success, html_text, html_error,
  verify_form, Rendered, json, html, Handler, reply, match_result, connect,
}

abbrev pub internal : Error → Rendered
internal e = json 500 (described e)

abbrev pub html_internal : Error → Rendered
html_internal e = html 500 (html_error e)

-- `from_pem(..).is_ok_and(.. PKCS_ED25519)`
abbrev pub CsrCheck : Type 0
CsrCheck = String → Bool

pub record DeviceCodeRequest : Type 0 where
  pub tenant_slug : Text
  pub csr_pem : String

abbrev pub codes_of : DeviceGrant → Rendered
codes_of g =
    json 200 (device_codes g.device_code g.user_code "/verify" grant_ttl poll_interval_seconds)

abbrev pub grant_for : ℕ → String → Option Random → Option Tenant → Handler
grant_for now csr_pem random none = reply (json 404 (error_body "invalid_tenant"))
grant_for now csr_pem random (some tenant) =
    match_result (create_device_grant now tenant.id csr_pem random) internal
      (λ g. reply (codes_of g))

unfoldable pub handle_device_code :
    CsrCheck → ℕ → Option Random → Option DeviceCodeRequest → Handler
unfolding connect find_tenant_by_slug create_device_grant
handle_device_code csr_is_valid_ed25519 now random none = reply (json 400 invalid_body)
handle_device_code csr_is_valid_ed25519 now random (some parsed) =
    if csr_is_valid_ed25519 parsed.csr_pem
    then match_result connect internal (λ _.
      match_result (find_tenant_by_slug parsed.tenant_slug) internal
        (grant_for now parsed.csr_pem random))
    else reply (json 400 (error_body "invalid_csr"))

abbrev pub pending : Rendered
pending = json 400 (error_body "authorization_pending")

abbrev pub with_certificate_of : String → Text → ℕ → Option String → Handler
with_certificate_of root slug device_id none = reply pending
with_certificate_of root slug device_id (some certificate_pem) =
    reply (json 200 (token_success "approved" slug device_id certificate_pem root))

abbrev pub token_for_device : String → Text → ℕ → Option Device → Handler
token_for_device root slug device_id none =
    reply (json 500 (error_body "grant references a device that no longer exists"))
token_for_device root slug device_id (some device) =
    with_certificate_of root slug device_id device.certificate_pem

abbrev pub token_for_tenant : String → ℕ → Option Tenant → Handler
token_for_tenant root device_id none =
    reply (json 500 (error_body "grant references a tenant that no longer exists"))
token_for_tenant root device_id (some tenant) =
    match_result (find_device_by_id device_id) internal
      (token_for_device root tenant.slug device_id)

abbrev pub token_for_approval : String → ℕ → Option ℕ → Handler
token_for_approval root tenant_id none = reply pending
token_for_approval root tenant_id (some device_id) =
    match_result (find_tenant_by_id tenant_id) internal (token_for_tenant root device_id)

abbrev pub token_for_grant : String → ℕ → Option DeviceGrant → Handler
token_for_grant root now none = reply (json 400 (error_body "invalid_grant"))
token_for_grant root now (some grant) =
    if is_grant_expired now grant
    then reply (json 400 (error_body "expired_token"))
    else token_for_approval root grant.tenant_id grant.approved_device_id

-- The request's `device_code`, the root certificate of the authority and the time.
unfoldable pub handle_device_token : String → ℕ → Option Text → Handler
unfolding connect find_grant_by_device_code find_tenant_by_id find_device_by_id is_grant_expired
handle_device_token root now none = reply (json 400 invalid_body)
handle_device_token root now (some device_code) =
    match_result connect internal (λ _.
      match_result (find_grant_by_device_code device_code) internal (token_for_grant root now))

-- The value of the first field `user_code`.
abbrev pub first_value : Text → List Text → Option Text
first_value key [] = none
first_value key (pair ∷ pairs) =
    let rest = first_value key pairs in
    elim (strip_prefix key pair) [ some value ↦ some value | none ↦ rest ]

unfoldable pub user_code_field : Text → Option Text
user_code_field query = first_value (codes "user_code=") (split_by (λ c. c == b'&') query)

-- `percent_decode`, with `from_utf8_lossy` on the decoded bytes
abbrev pub decoded : (List ℕ → Text) → Text → Option Text
decoded lossy value = map_option lossy (percent_decode value)

unfoldable pub page_of : Text → Rendered
unfolding html_escape
page_of prefilled = html 200 (verify_form (html_escape prefilled))

-- `none` where the decoding panics.
unfoldable pub handle_verify_page : (List ℕ → Text) → Text → Option Rendered
unfolding user_code_field percent_decode
handle_verify_page lossy query = elim (user_code_field query) [
  | none ↦ some (page_of [])
  | some value ↦ map_option page_of (decoded lossy value)
]

-- `SignedDeviceCert`
pub record Signed : Type 0 where
  pub certificate_pem : String
  pub serial_hex : String
  pub not_before : ℕ
  pub not_after : ℕ
  pub public_key_raw : List ℕ

-- The authority's signature on a request, and the OpenSSH form of a key.
pub record Signing : Type 0 where
  pub sign_device_csr : String → Option Signed
  pub openssh_public_key : List ℕ → Option String

abbrev pub approved_page : Rendered
approved_page = html 200 (html_text "Device approved")

abbrev pub issued_of : Signed → Issued
issued_of s = record {
  certificate_pem = s.certificate_pem;
  cert_serial = s.serial_hex;
  cert_issued_at = s.not_before;
  cert_expires_at = s.not_after;
}

abbrev pub issue_for : Signed → Device → Handler
issue_for signed device =
    match_result (issue_device_certificate device.id (issued_of signed)) html_internal
      (λ _. reply approved_page)

unfoldable pub approve_with_key : ℕ → DeviceGrant → Signed → Option String → Handler
unfolding approve_grant issue_device_certificate
approve_with_key now grant signed none = reply (html_internal crypto)
approve_with_key now grant signed (some public_key) =
    match_result (approve_grant now grant public_key) html_internal (issue_for signed)

unfoldable pub sign_and_approve : Signing → ℕ → DeviceGrant → Option Signed → Handler
unfolding approve_with_key
sign_and_approve signing now grant none = reply (html 400 (html_text "could not sign"))
sign_and_approve signing now grant (some signed) =
    approve_with_key now grant signed (signing.openssh_public_key signed.public_key_raw)

abbrev pub is_certified : Option Device → Bool
is_certified none = false
is_certified (some device) = is_some device.certificate_pem

abbrev pub unless_certified : Signing → ℕ → DeviceGrant → Option Device → Handler
unless_certified signing now grant found =
    if is_certified found
    then reply approved_page
    else sign_and_approve signing now grant (signing.sign_device_csr grant.csr_pem)

abbrev pub approve_or_retry : Signing → ℕ → DeviceGrant → Option ℕ → Handler
approve_or_retry signing now grant none =
    sign_and_approve signing now grant (signing.sign_device_csr grant.csr_pem)
approve_or_retry signing now grant (some device_id) =
    match_result (find_device_by_id device_id) html_internal (unless_certified signing now grant)

abbrev pub verify_grant : Signing → ℕ → Option DeviceGrant → Handler
verify_grant signing now none = reply (html 404 (html_text "unknown or expired code"))
verify_grant signing now (some grant) =
    if is_grant_expired now grant
    then reply (html 400 (html_text "this code has expired"))
    else approve_or_retry signing now grant grant.approved_device_id

-- `/verify` of a decoded code.
unfoldable pub verify_code : Signing → ℕ → Text → Handler
unfolding connect find_grant_by_user_code is_grant_expired find_device_by_id sign_and_approve
verify_code signing now user_code =
    match_result connect html_internal (λ _.
      match_result (find_grant_by_user_code user_code) html_internal (verify_grant signing now))

unfoldable pub handle_verify_submit :
    (List ℕ → Text) → Signing → ℕ → Text → World → Option (Rendered × World)
unfolding user_code_field percent_decode verify_code
handle_verify_submit lossy signing now body w = elim (user_code_field body) [
  | none ↦ some (html 400 (html_text "missing user_code"), w)
  | some value ↦ map_option (λ user_code. verify_code signing now user_code w) (decoded lossy value)
]
