-- ===== src/Hub/Gate.antt =====
-- http.rs: `handle_git_http` and `proxy_to_tenant_pod`. What the pods do is an argument, and the
-- serial is what `cert_serial_hex` reads from the peer's certificate.
pub mod Rules
pub mod Safety
pub mod Answers
use wkp.Base.{
  ℕ, zero, suc, ◌+◌, ◌-◌, ◌*◌, ◌/◌, ◌%◌, ◌^◌, ◌≤◌, ◌<◌, min, max, String, ◌≡◌, refl, sym, ap, ap₂,
  ◌∙◌, subst, ◌≡⟨◌⟩◌, ◌∎, ◌≢◌, ◌↔◌, ◌⊎◌, inl, inr, Bool, true, false, not, ◌&&◌, ◌||◌, Option, none,
  some, List, [], ◌∷◌, ◌++◌, map, append-nil, append_assoc, arith, ltb, leb, ◌==◌, if◌then◌else◌,
  ==_iff, Bool-cases, Option-cases, &&-elim, length, take, drop, flatten, filter, take_while, all,
  any, is_empty, length-append, take-append, drop-append, filter_map, or_else, is_some, map_option,
  ◌>>=◌, all-append, drop_past, push_some,
}
use text.Mathlib.Text.{◌==◌ as str_eq}
use wkp.Str.{Text, codes, text_eq}
use wkp.Hub.Store.{Error, Result, ok, err, Db, World, Action, Device, Tenant}
use wkp.Hub.Control.{
  find_device_by_cert_serial, find_tenant_by_slug, touch_last_active, record_pod_started,
}
use wkp.Hub.Reply.{
  PodResponse, Body, pod_bytes, Rendered, status_only, Handler, reply, match_result, ignore_error,
  connect,
}

-- A request to a pod, and the attempt that it is.
pub record PodRequest : Type 0 where
  pub url : Text
  pub get : Bool
  pub content_type : Option Text
  pub body : List ℕ

-- `start_pod` of an orchestrator, and what the network gives for a request.
pub record Pods : Type 0 where
  pub start_pod : Text → Bool
  pub call : PodRequest → ℕ → Option PodResponse

-- `eq_ignore_ascii_case` with a lower-case text
abbrev lower : ℕ → ℕ
lower c = if leb b'A' c && leb c b'Z' then c + 32 else c

abbrev pub is_content_type : Text → Bool
is_content_type name = text_eq (map lower name) (codes "content-type")

-- The last `Content-Type` that is a text, and the other headers that are one.
unfoldable pub relayed_type : Text → List (Text × Option Text) → Text
relayed_type before [] = before
relayed_type before ((name, none) ∷ headers) = relayed_type before headers
relayed_type before ((name, some value) ∷ headers) =
    relayed_type (if is_content_type name then value else before) headers

unfoldable pub relayed_headers : List (Text × Option Text) → List (Text × Text)
relayed_headers [] = []
relayed_headers ((name, none) ∷ headers) = relayed_headers headers
relayed_headers ((name, some value) ∷ headers) =
    let rest = relayed_headers headers in
    if is_content_type name then rest else (name, value) ∷ rest

unfoldable pub relayed : PodResponse → Rendered
unfolding relayed_type relayed_headers
relayed r = record {
  status = r.status;
  content_type = relayed_type (codes "application/octet-stream") r.headers;
  extra_headers = relayed_headers r.headers;
  body = pod_bytes r.body;
}

-- The attempts from one on, the first of which is the tenth where none are left.
unfoldable pub attempts : (ℕ → Option PodResponse) → ℕ → ℕ → Rendered
attempts call attempt zero = status_only 502
attempts call attempt (suc left) =
    let later = attempts call (attempt + 1) left in
    elim (call attempt) [ some response ↦ relayed response | none ↦ later ]

-- `http://<slug>:<SERVE_PORT>/<slug>.git/<suffix>?<query>`
unfoldable pub pod_url : Text → Text → Text → Text
pod_url slug suffix query =
    codes "http://" ++ slug ++ codes ":8080/" ++ slug ++ codes ".git/" ++ suffix ++ b'?' ∷ query

pub record GitRequest : Type 0 where
  pub method : String
  pub tenant_slug : Text
  pub suffix : Text
  pub query : Text
  pub content_type : Option Text
  pub body : List ℕ

unfoldable pub proxy_to_tenant_pod : Pods → Bool → GitRequest → Rendered
unfolding attempts pod_url
proxy_to_tenant_pod pods get r =
    let request : PodRequest = record {
      url = pod_url r.tenant_slug r.suffix r.query;
      get = get;
      content_type = r.content_type;
      body = if get then [] else r.body;
    } in
    attempts (pods.call request) 0 10

unfoldable pub with_pod : Pods → ℕ → Bool → GitRequest → Tenant → Handler
unfolding record_pod_started
with_pod pods now get r tenant =
    if tenant.pod_running
    then reply (proxy_to_tenant_pod pods get r)
    else if pods.start_pod r.tenant_slug
    then ignore_error (record_pod_started now tenant.id) (reply (proxy_to_tenant_pod pods get r))
    else reply (status_only 503)

abbrev pub with_tenant : Pods → ℕ → Bool → GitRequest → Device → Option Tenant → Handler
with_tenant pods now get r device none = reply (status_only 404)
with_tenant pods now get r device (some tenant) =
    if device.tenant_id == tenant.id
    then ignore_error (touch_last_active now tenant.id) (with_pod pods now get r tenant)
    else reply (status_only 404)

abbrev pub with_device : Pods → ℕ → Bool → GitRequest → Option Device → Handler
with_device pods now get r none = reply (status_only 401)
with_device pods now get r (some device) =
    if is_some device.revoked_at
    then reply (status_only 401)
    else match_result (find_tenant_by_slug r.tenant_slug) (λ _. status_only 500)
        (with_tenant pods now get r device)

abbrev pub with_serial : Pods → ℕ → Bool → GitRequest → Option String → Handler
with_serial pods now get r none = reply (status_only 401)
with_serial pods now get r (some serial) =
    match_result connect (λ _. status_only 500)
      λ _.
        match_result (find_device_by_cert_serial serial) (λ _. status_only 500)
          (with_device pods now get r)

unfoldable pub handle_git_http : Pods → ℕ → GitRequest → Option String → Handler
unfolding connect find_device_by_cert_serial find_tenant_by_slug touch_last_active with_pod
handle_git_http pods now r peer =
    if str_eq r.method "GET"
    then with_serial pods now true r peer
    else if str_eq r.method "POST"
    then with_serial pods now false r peer
    else reply (status_only 405)
