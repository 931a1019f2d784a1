-- ===== src/Tests/Plane.antt =====
-- The hub: the control plane and its handlers.
use wkp.Base.{
  ℕ, ◌<◌, ◌≡◌, refl, ◌≢◌, ◌↔◌, true, false, Option, none, some, [], ◌∷◌, ◌++◌, map, arith, ◌==◌,
  if◌then◌else◌, flatten,
}
use wkp.Str.{Text, codes, text_eq, strip_prefix, split_once}
use wkp.Hub.Store.{ok, World, Tenant, Device, DeviceGrant, find_by}
use wkp.Hub.Control.{
  revoke_device, create_tenant, register_device, issue_device_certificate,
  find_device_by_cert_serial, touch_last_active, record_pod_started, find_tenant_by_slug,
  find_tenant_by_id, find_device_by_id, has_serial, has_slug, is_device,
}
use wkp.Hub.Grants.{
  Random, hex, user_code_of, is_grant_expired, insert_grant, create_device_grant, set_approved,
  register_approved, approve_grant, find_grant_by_device_code, find_grant_by_user_code,
}
use wkp.Hub.Http.{strip_suffix, git_http_path, html_escape, percent_decode}
use wkp.Hub.Http.Route.{IsRoute, git_http_path_iff}
use wkp.Hub.Http.Escape.{escaped, html_escape_each}
use wkp.Hub.Http.Percent.{form_encode}
use wkp.Hub.Reply.{PodResponse, connect}
use wkp.Hub.Gate.{
  PodRequest, Pods, GitRequest, handle_git_http, relayed, with_pod, proxy_to_tenant_pod, attempts,
}
use wkp.Hub.Gate.Safety.{MayReach, is_from_pod}
use wkp.Hub.Front.{Outside, Request, serve, route_for, verified, verify_client_cert}
use wkp.Hub.Front.Certificates.{verify_client_cert_final}
use wkp.Hub.Front.Gate.Served.{IsServed, is_pod_answer, serve-IsServed}
use wkp.Hub.Gate.Answers.{the_request, handle_git_http_answers, handle_git_http_hides}
use wkp.Hub.Enrol.{
  CsrCheck, DeviceCodeRequest, Signed, Signing, handle_device_code, handle_device_token,
  verify_code, handle_verify_submit, sign_and_approve, approve_with_key,
}
use wkp.Hub.Enrol.Token.{IsIssued, token_of, handle_device_token_iff}
use wkp.Hub.Enrol.Retry.{IsDone, verify_code_idempotent}
use wkp.Hub.Enrol.Forms.{handle_verify_submit-form}
use wkp.Hub.Tables.{IsWellFormed}
use wkp.Hub.Steps.{Steps, create, ask_codes, verify, here, and_then}
use wkp.Hub.Steps.Reach.{empty_db, reached-IsWellFormed}
use wkp.Hub.Steps.Own.{IsOwnDevice, handle_device_token_own}
use wkp.Hub.Steps.Final.{revoke_device_final}
use wkp.Hub.Steps.Phase.{Moves, phase}
use wkp.Hub.Steps.Phase.Kept.{phase_refines}

git_http_path_iff_example :
    (git_http_path (codes "/acme.git/info/refs") ≡ some (codes "acme", codes "info/refs"))
    ↔ IsRoute (codes "/acme.git/info/refs") (codes "acme") (codes "info/refs")
git_http_path_iff_example =
    git_http_path_iff (codes "/acme.git/info/refs") (codes "acme") (codes "info/refs")

html_escape_each_example : html_escape (codes "<a&b>") ≡ flatten (map escaped (codes "<a&b>"))
html_escape_each_example = html_escape_each (codes "<a&b>")

-- A panic on `%a` in front of the two bytes of `é`.
percent_decode_panics : percent_decode (b'%' ∷ b'a' ∷ 0xc3 ∷ 0xa9 ∷ []) ≡ none
unfolding percent_decode
percent_decode_panics = refl

-- The authority signs each request with one certificate.
abbrev the_certificate : Signed
the_certificate = record {
  certificate_pem = "PEM";
  serial_hex = "0a";
  not_before = 0;
  not_after = 1000;
  public_key_raw = 7 ∷ [];
}

abbrev signing : Signing
signing = record {
  sign_device_csr = λ csr. some the_certificate;
  openssh_public_key = λ raw. some "ssh-ed25519 AAAA";
}

abbrev random : Random
random = record { device_bytes = 171 ∷ 5 ∷ []; user_bytes = 0 ∷ 1 ∷ 2 ∷ 3 ∷ 4 ∷ 5 ∷ 6 ∷ 38 ∷ [] }

abbrev code_request : DeviceCodeRequest
code_request = record { tenant_slug = codes "acme"; csr_pem = "CSR" }

abbrev accepts : CsrCheck
accepts csr = true

abbrev start : World
start = record { db = empty_db; faults = [] }

-- Two tenants, a request for codes, its approval.
abbrev with_acme : World
with_acme = (create_tenant 10 (codes "acme") start).1

abbrev with_tenants : World
with_tenants = (create_tenant 11 (codes "other") with_acme).1

abbrev with_grant : World
with_grant = (handle_device_code accepts 20 (some random) (some code_request) with_tenants).1

abbrev with_device : World
with_device = (verify_code signing 30 (codes "ABCD-EFGH") with_grant).1

to_tenants : Steps start with_tenants
to_tenants =
    and_then with_acme with_tenants (and_then start with_acme here (create 10 (codes "acme")))
      (create 11 (codes "other"))

to_grant : Steps start with_grant
to_grant =
    and_then with_tenants with_grant to_tenants
      (ask_codes accepts 20 (some random) (some code_request))

to_device : Steps start with_device
to_device = and_then with_grant with_device to_grant (verify signing 30 (codes "ABCD-EFGH"))

polled :
    (handle_device_token "ROOT" 40 (some (codes "ab05")) with_device).0
    ≡ token_of "ROOT" (codes "acme") 1 "PEM"
unfolding create_tenant handle_device_code verify_code handle_device_token text_eq hex user_code_of
    connect find_tenant_by_slug find_tenant_by_id find_device_by_id insert_grant create_device_grant
    is_grant_expired find_grant_by_user_code find_grant_by_device_code sign_and_approve
    approve_with_key approve_grant register_approved register_device set_approved
    issue_device_certificate
polled = refl

handle_device_token_own_example : IsOwnDevice with_device.db (codes "acme") 1 "PEM"
handle_device_token_own_example =
    handle_device_token_own [] with_device "ROOT" 40 (codes "ab05") (codes "acme") 1 "PEM" to_device
      polled

handle_device_token_iff_example :
    ((handle_device_token "ROOT" 40
        (some (codes "ab05"))
        (record { db = with_device.db; faults = [] })).0
      ≡ token_of "ROOT" (codes "acme") 1 "PEM")
    ↔ IsIssued with_device.db 40 (codes "ab05") (codes "acme") 1 "PEM"
handle_device_token_iff_example =
    handle_device_token_iff "ROOT" 40 (codes "ab05") (codes "acme") 1 "PEM" with_device.db

reached-IsWellFormed_example : IsWellFormed with_device.db
reached-IsWellFormed_example = reached-IsWellFormed [] with_device to_device

phase_refines_example :
    Moves (phase (codes "ab05") with_tenants.db) (phase (codes "ab05") with_device.db)
phase_refines_example = phase_refines [] with_tenants with_device (codes "ab05") to_tenants (
    and_then with_grant with_device
      (and_then with_tenants with_grant here
        (ask_codes accepts 20 (some random) (some code_request)))
      (verify signing 30 (codes "ABCD-EFGH")))

-- The grant as it was stored.
abbrev acme : Tenant
acme = record {
  id = 1;
  slug = codes "acme";
  always_warm = false;
  pod_running = false;
  pod_started_at = none;
  last_active_at = 10;
}

abbrev waiting : DeviceGrant
waiting = record {
  id = 1;
  tenant_id = 1;
  device_code = codes "ab05";
  user_code = codes "ABCD-EFGH";
  csr_pem = "CSR";
  expires_at = 620;
  approved_device_id = none;
}

abbrev device : Device
device = record {
  id = 1;
  tenant_id = 1;
  public_key = "ssh-ed25519 AAAA";
  created_at = 30;
  revoked_at = none;
  certificate_pem = some "PEM";
  cert_serial = some "0a";
  cert_issued_at = some 0;
  cert_expires_at = some 1000;
}

done : IsDone with_device.db (codes "ABCD-EFGH")
unfolding create_tenant handle_device_code verify_code handle_device_token text_eq hex user_code_of
    connect find_tenant_by_slug find_tenant_by_id find_device_by_id insert_grant create_device_grant
    is_grant_expired find_grant_by_user_code find_grant_by_device_code sign_and_approve
    approve_with_key approve_grant register_approved register_device set_approved
    issue_device_certificate
done = record {
  grant = record waiting { approved_device_id = some 1 };
  device = device;
  device_id = 1;
  pem = "PEM";
  granted = refl;
  approved = refl;
  registered = refl;
  certified = refl;
}

verify_code_idempotent_example :
    (verify_code signing 31 (codes "ABCD-EFGH") with_device).1.db ≡ with_device.db
verify_code_idempotent_example =
    verify_code_idempotent signing 31 (codes "ABCD-EFGH") with_device done

handle_verify_submit-form_example :
    handle_verify_submit
      (λ bytes. bytes)
      signing
      30
      (codes "user_code=" ++ form_encode (codes "AB CD"))
      with_grant
    ≡ some (verify_code signing 30 (codes "AB CD") with_grant)
handle_verify_submit-form_example =
    handle_verify_submit-form (λ bytes. bytes) signing 30 (codes "AB CD") with_grant refl

-- A pod that answers at the second attempt.
abbrev response : PodResponse
response = record { status = 200; headers = []; body = 1 ∷ [] }

abbrev call_twice : PodRequest → ℕ → Option PodResponse
call_twice request attempt = if attempt == 1 then some response else none

abbrev pods : Pods
pods = record { start_pod = λ slug. true; call = call_twice }

abbrev fetch : Text → GitRequest
fetch slug = record {
  method = "GET";
  tenant_slug = slug;
  suffix = codes "info/refs";
  query = [];
  content_type = none;
  body = [];
}

reached : MayReach with_device.db (codes "acme") (some "0a")
unfolding create_tenant handle_device_code verify_code handle_device_token text_eq hex user_code_of
    connect find_tenant_by_slug find_tenant_by_id find_device_by_id insert_grant create_device_grant
    is_grant_expired find_grant_by_user_code find_grant_by_device_code sign_and_approve
    approve_with_key approve_grant register_approved register_device set_approved
    issue_device_certificate
reached = record {
  serial = "0a";
  device = device;
  tenant = acme;
  presented = refl;
  known = refl;
  not_revoked = refl;
  served = refl;
  own = refl;
}

first_silent : (i : ℕ) → i < 1 → call_twice (the_request (fetch (codes "acme")) true) i ≡ none
first_silent i lt = let early : (i == 1) ≡ false = ground arith in rw early refl

handle_git_http_answers_example :
    (handle_git_http pods 50
      (fetch (codes "acme"))
      (some "0a")
      (record { db = with_device.db; faults = [] })).0
    ≡ relayed response
handle_git_http_answers_example =
    handle_git_http_answers pods 50 true (fetch (codes "acme")) (some "0a") with_device.db response
      1 refl reached (ground arith) (omega arith) first_silent refl

fetched :
    is_from_pod (handle_git_http pods 50 (fetch (codes "acme")) (some "0a") with_device).0 ≡ true
unfolding create_tenant handle_device_code verify_code handle_device_token text_eq hex user_code_of
    connect find_tenant_by_slug find_tenant_by_id find_device_by_id insert_grant create_device_grant
    is_grant_expired find_grant_by_user_code find_grant_by_device_code sign_and_approve
    approve_with_key approve_grant register_approved register_device set_approved
    issue_device_certificate relayed find_device_by_cert_serial touch_last_active record_pod_started
    with_pod proxy_to_tenant_pod attempts handle_git_http revoke_device
fetched = refl

abbrev outside : Outside
outside = record {
  now = 50;
  pods = pods;
  csr_is_valid_ed25519 = accepts;
  random = some random;
  parse_device_code = λ body. some code_request;
  parse_device_token = λ body. none;
  lossy = λ bytes. bytes;
  from_utf8_lossy = λ bytes. bytes;
  signing = signing;
  root_cert_pem = "ROOT";
}

abbrev request : Request
request = record {
  method = "GET";
  path = codes "/acme.git/info/refs";
  query = codes "service=git-upload-pack";
  content_type = none;
  body = some [];
}

served : is_pod_answer (serve outside request (some "0a") with_device).0 ≡ true
unfolding create_tenant handle_device_code verify_code handle_device_token text_eq hex user_code_of
    connect find_tenant_by_slug find_tenant_by_id find_device_by_id insert_grant create_device_grant
    is_grant_expired find_grant_by_user_code find_grant_by_device_code sign_and_approve
    approve_with_key approve_grant register_approved register_device set_approved
    issue_device_certificate relayed find_device_by_cert_serial touch_last_active record_pod_started
    with_pod proxy_to_tenant_pod attempts handle_git_http revoke_device serve route_for
    git_http_path strip_prefix split_once strip_suffix
served = refl

serve-IsServed_example : IsServed with_device.db request.path (some "0a")
serve-IsServed_example = serve-IsServed outside request (some "0a") with_device served

abbrev other : Tenant
other = record {
  id = 2;
  slug = codes "other";
  always_warm = false;
  pod_running = false;
  pod_started_at = none;
  last_active_at = 11;
}

known_device : find_by (has_serial "0a") with_device.db.devices ≡ some device
unfolding create_tenant handle_device_code verify_code handle_device_token text_eq hex user_code_of
    connect find_tenant_by_slug find_tenant_by_id find_device_by_id insert_grant create_device_grant
    is_grant_expired find_grant_by_user_code find_grant_by_device_code sign_and_approve
    approve_with_key approve_grant register_approved register_device set_approved
    issue_device_certificate
known_device = refl

unknown_slug : find_by (has_slug (codes "none")) with_device.db.tenants ≡ none
unfolding create_tenant handle_device_code verify_code handle_device_token text_eq hex user_code_of
    connect find_tenant_by_slug find_tenant_by_id find_device_by_id insert_grant create_device_grant
    is_grant_expired find_grant_by_user_code find_grant_by_device_code sign_and_approve
    approve_with_key approve_grant register_approved register_device set_approved
    issue_device_certificate
unknown_slug = refl

other_slug : find_by (has_slug (codes "other")) with_device.db.tenants ≡ some other
unfolding create_tenant handle_device_code verify_code handle_device_token text_eq hex user_code_of
    connect find_tenant_by_slug find_tenant_by_id find_device_by_id insert_grant create_device_grant
    is_grant_expired find_grant_by_user_code find_grant_by_device_code sign_and_approve
    approve_with_key approve_grant register_approved register_device set_approved
    issue_device_certificate
other_slug = refl

handle_git_http_hides_example :
    handle_git_http pods 50 (fetch (codes "none")) (some "0a") with_device
    ≡ handle_git_http pods 50 (fetch (codes "other")) (some "0a") with_device
handle_git_http_hides_example =
    handle_git_http_hides pods 50 (fetch (codes "none")) (fetch (codes "other")) "0a" device other
      with_device refl known_device refl unknown_slug other_slug (ground arith)

-- The device is revoked.
abbrev with_revoked : World
with_revoked = (revoke_device 60 1 with_device).1

registered_device : find_by (is_device 1) with_device.db.devices ≡ some device
unfolding create_tenant handle_device_code verify_code handle_device_token text_eq hex user_code_of
    connect find_tenant_by_slug find_tenant_by_id find_device_by_id insert_grant create_device_grant
    is_grant_expired find_grant_by_user_code find_grant_by_device_code sign_and_approve
    approve_with_key approve_grant register_approved register_device set_approved
    issue_device_certificate
registered_device = refl

revocation_done : (revoke_device 60 1 with_device).0 ≡ ok tt
unfolding create_tenant handle_device_code verify_code handle_device_token text_eq hex user_code_of
    connect find_tenant_by_slug find_tenant_by_id find_device_by_id insert_grant create_device_grant
    is_grant_expired find_grant_by_user_code find_grant_by_device_code sign_and_approve
    approve_with_key approve_grant register_approved register_device set_approved
    issue_device_certificate relayed find_device_by_cert_serial touch_last_active record_pod_started
    with_pod proxy_to_tenant_pod attempts handle_git_http revoke_device
revocation_done = refl

still_known :
    find_by (has_serial "0a") with_revoked.db.devices
    ≡ some (record device { revoked_at = some 60 })
unfolding create_tenant handle_device_code verify_code handle_device_token text_eq hex user_code_of
    connect find_tenant_by_slug find_tenant_by_id find_device_by_id insert_grant create_device_grant
    is_grant_expired find_grant_by_user_code find_grant_by_device_code sign_and_approve
    approve_with_key approve_grant register_approved register_device set_approved
    issue_device_certificate relayed find_device_by_cert_serial touch_last_active record_pod_started
    with_pod proxy_to_tenant_pod attempts handle_git_http revoke_device
still_known = refl

revoke_device_final_example :
    is_from_pod (handle_git_http pods 70 (fetch (codes "acme")) (some "0a") with_revoked).0 ≡ false
revoke_device_final_example =
    revoke_device_final [] with_device with_revoked 60 70 1 device
      (record device { revoked_at = some 60 }) pods (fetch (codes "acme")) "0a" to_device
      registered_device revocation_done here still_known refl

verify_client_cert_final_example : (verify_client_cert true (some "0a") with_revoked).0 ≢ verified
verify_client_cert_final_example =
    verify_client_cert_final [] with_device with_revoked 60 1 device
      (record device { revoked_at = some 60 }) true "0a" to_device registered_device revocation_done
      here still_known refl
