-- ===== src/Hub/Front.antt =====
-- front_door.rs: which handler a request gets; hub_ca.rs: the check of a client's certificate in the
-- handshake. The routing of axum, the limit on a body, the parser of JSON, the check of a
-- certificate's chain and the reading of its serial are arguments or are as axum documents them.
pub mod Gate
pub mod Certificates
use wkp.Base.{
  ℕ, zero, suc, ◌+◌, ◌-◌, ◌*◌, ◌/◌, ◌%◌, ◌^◌, ◌≤◌, ◌<◌, min, max, String, ◌≡◌, refl, sym, ap, ap₂,
  ◌∙◌, subst, ◌≡⟨◌⟩◌, ◌∎, ◌≢◌, ◌↔◌, ◌⊎◌, inl, inr, Bool, true, false, not, ◌&&◌, ◌||◌, Option, none,
  some, List, [], ◌∷◌, ◌++◌, map, append-nil, append_assoc, arith, ltb, leb, ◌==◌, if◌then◌else◌,
  ==_iff, Bool-cases, Option-cases, &&-elim, length, take, drop, flatten, filter, take_while, all,
  any, is_empty, length-append, take-append, drop-append, filter_map, or_else, is_some, map_option,
  ◌>>=◌, all-append, drop_past, push_some,
}
use text.Mathlib.Text.{◌==◌ as str_eq}
use wkp.Str.{Text, codes, text_eq}
use wkp.Hub.Store.{Error, Result, ok, err, Db, World, Action, Device}
use wkp.Hub.Control.{find_device_by_cert_serial}
use wkp.Hub.Grants.{Random}
use wkp.Hub.Http.{git_http_path}
use wkp.Hub.Reply.{Rendered, status_only, not_found_page, Handler, reply, connect}
use wkp.Hub.Gate.{Pods, GitRequest, handle_git_http}
use wkp.Hub.Enrol.{
  CsrCheck, DeviceCodeRequest, Signing, handle_device_code, handle_device_token, handle_verify_page,
  handle_verify_submit,
}

-- A request; the body is `none` where it is over the limit or breaks off.
pub record Request : Type 0 where
  pub method : String
  pub path : Text
  pub query : Text
  pub content_type : Option Text
  pub body : Option (List ℕ)

-- What is outside, as long as one request lasts.
pub record Outside : Type 0 where
  pub now : ℕ
  pub pods : Pods
  pub csr_is_valid_ed25519 : CsrCheck
  pub random : Option Random
  pub parse_device_code : List ℕ → Option DeviceCodeRequest
  pub parse_device_token : List ℕ → Option Text
  pub lossy : List ℕ → Text
  -- `String::from_utf8_lossy`, as the bytes of the string
  pub from_utf8_lossy : List ℕ → List ℕ
  pub signing : Signing
  pub root_cert_pem : String

pub data Answer : Type 0 where
  answered : Rendered → Answer
  -- axum's own 405, for a method that a path has no handler for
  method_refused : Answer
  -- The task of the connection panicked.
  dropped : Answer

pub data Route : Type 0 where
  to_device_code to_device_token to_verify_page to_verify_submit to_git no_method : Route

-- `router`: axum gives HEAD to the handler of GET.
abbrev pub on_method : String → List (String × Route) → Route
on_method method [] = no_method
on_method method ((m, route) ∷ routes) =
    let rest = on_method method routes in if str_eq method m then route else rest

unfoldable pub route_for : String → Text → Route
route_for method path =
    if text_eq path (codes "/device/code")
    then on_method method (("POST", to_device_code) ∷ [])
    else if text_eq path (codes "/device/token")
    then on_method method (("POST", to_device_token) ∷ [])
    else if text_eq path (codes "/verify")
    then on_method method
        (("GET", to_verify_page) ∷ ("HEAD", to_verify_page) ∷ ("POST", to_verify_submit) ∷ [])
    else to_git

abbrev pub Front : Type 0
Front = World → Answer × World

abbrev pub answer : Handler → Front
answer h w = let (r, w') = h w in (answered r, w')

-- `blocking`, where the handler panics
abbrev pub answer_or_500 : World → Option (Rendered × World) → Answer × World
answer_or_500 w none = (answered (status_only 500), w)
answer_or_500 w (some (r, w')) = (answered r, w')

abbrev pub answer_or_dropped : Option Rendered → Answer
answer_or_dropped none = dropped
answer_or_dropped (some r) = answered r

abbrev pub git_request : Request → List ℕ → Text × Text → GitRequest
git_request r body (tenant_slug, suffix) = record {
  method = r.method;
  tenant_slug = tenant_slug;
  suffix = suffix;
  query = r.query;
  content_type = r.content_type;
  body = body;
}

abbrev pub git_http : Outside → Request → Option String → List ℕ → Option (Text × Text) → Front
git_http out r peer body none = answer (reply not_found_page)
git_http out r peer body (some parts) =
    answer (handle_git_http out.pods out.now (git_request r body parts) peer)

-- `Incoming::body_string`
abbrev pub body_string : Outside → List ℕ → List ℕ
body_string out body = out.from_utf8_lossy body

abbrev pub handle : Outside → Request → Option String → List ℕ → Route → Front
handle out r peer body to_device_code = answer (
    handle_device_code out.csr_is_valid_ed25519 out.now out.random
      (out.parse_device_code (body_string out body)))
handle out r peer body to_device_token =
    answer (
      handle_device_token out.root_cert_pem out.now (out.parse_device_token (body_string out body)))
handle out r peer body to_verify_page =
    λ w. (answer_or_dropped (handle_verify_page out.lossy r.query), w)
handle out r peer body to_verify_submit = λ w.
    answer_or_500 w (handle_verify_submit out.lossy out.signing out.now (body_string out body) w)
handle out r peer body to_git = git_http out r peer body (git_http_path r.path)
handle out r peer body no_method = λ w. (method_refused, w)

abbrev pub with_body : Outside → Request → Option String → Route → Option (List ℕ) → Front
with_body out r peer no_method body = λ w. (method_refused, w)
with_body out r peer route none = answer (reply (status_only 413))
with_body out r peer route (some body) = handle out r peer body route

-- A request on a connection whose certificate has the serial `peer`.
unfoldable pub serve : Outside → Request → Option String → Front
unfolding route_for handle_device_code handle_device_token handle_verify_page handle_verify_submit
    handle_git_http git_http_path not_found_page
serve out r peer = with_body out r peer (route_for r.method r.path) r.body

-- The handshake.
pub data Handshake : Type 0 where
  verified untrusted bad_encoding lookup_failed unknown_issuer revoked : Handshake

abbrev pub handshake_of : Option Device → Handshake
handshake_of none = unknown_issuer
handshake_of (some device) = if is_some device.revoked_at then revoked else verified

abbrev pub looked_up : Result (Option Device) → Handshake
looked_up (ok found) = handshake_of found
looked_up (err e) = lookup_failed

abbrev pub by_serial : String → World → Handshake × World
by_serial serial w =
    let (r, w') = connect w in
    elim r [
      | ok _ ↦ let (r', w'') = find_device_by_cert_serial serial w' in (looked_up r', w'')
      | err e ↦ (lookup_failed, w')
    ]

-- The verdict on the chain, and the serial where the certificate parses.
unfoldable pub verify_client_cert : Bool → Option String → World → Handshake × World
unfolding connect find_device_by_cert_serial
verify_client_cert false serial w = (untrusted, w)
verify_client_cert true none w = (bad_encoding, w)
verify_client_cert true (some serial) w = by_serial serial w
