-- ===== src/Hub/Front/Gate/Served.antt =====
-- The front door as a whole: who gets an answer of a pod.
use wkp.Base.{
  ℕ, String, ◌≡◌, refl, inl, inr, Bool, true, false, Option, none, some, List, arith, Option-cases,
  map_option,
}
use wkp.Str.{Text}
use wkp.Hub.Store.{Db, World}
use wkp.Hub.Http.{git_http_path}
use wkp.Hub.Http.Route.{IsRoute, git_http_path_iff}
use wkp.Hub.Reply.{not_found_page}
use wkp.Hub.Gate.Safety.{is_from_pod, MayReach, handle_git_http_gated}
use wkp.Hub.Enrol.{
  page_of, decoded, user_code_field, handle_verify_page, verify_code, handle_verify_submit,
}
use wkp.Hub.Front.{
  Request, Outside, Answer, answered, method_refused, body_string, dropped, Route, to_device_code,
  to_device_token, to_verify_page, to_verify_submit, to_git, no_method, route_for, answer_or_500,
  answer_or_dropped, git_request, git_http, handle, with_body, serve,
}
use wkp.Hub.Front.Gate.{device_code-Own, device_token-Own, verify_code-Own}

abbrev pub is_pod_answer : Answer → Bool
is_pod_answer (answered r) = is_from_pod r
is_pod_answer method_refused = false
is_pod_answer dropped = false

-- The path is the one of a git request for a tenant, whose pod the peer may reach.
pub record IsServed (db : Db) (path : Text) (peer : Option String) : Type 0 where
  pub slug : Text
  pub suffix : Text
  pub route : IsRoute path slug suffix
  pub reach : MayReach db slug peer

git_http-IsServed :
    (out : Outside) (r : Request) (peer : Option String) (body : List ℕ) (o : Option (Text × Text))
    (w : World)
    → git_http_path r.path ≡ o
    → is_pod_answer (git_http out r peer body o w).0 ≡ true
    → IsServed w.db r.path peer
unfolding not_found_page
git_http-IsServed out r peer body none w e h = absurd (ground (arith, h))
git_http-IsServed out r peer body (some (slug, suffix)) w e h = record {
  slug = slug;
  suffix = suffix;
  route = (git_http_path_iff r.path slug suffix).0 e;
  reach = handle_git_http_gated out.pods out.now (git_request r body (slug, suffix)) peer w h;
}

page-Own : (o : Option Text) → is_pod_answer (answer_or_dropped (map_option page_of o)) ≡ false
unfolding page_of
page-Own none = refl
page-Own (some t) = refl

verify_page-Own :
    (out : Outside) (query : Text)
    → is_pod_answer (answer_or_dropped (handle_verify_page out.lossy query)) ≡ false
unfolding handle_verify_page page_of
verify_page-Own out query = elim (Option-cases (user_code_field query)) [
  | inl e ↦ rw (handle_verify_page, e) refl
  | inr (value, e) ↦ rw (handle_verify_page, e) (page-Own (decoded out.lossy value))
]

submit-Own :
    (out : Outside) (o : Option Text) (w : World)
    → is_pod_answer
        (answer_or_500 w (map_option (λ code. verify_code out.signing out.now code w) o)).0
      ≡ false
submit-Own out none w = refl
submit-Own out (some code) w = verify_code-Own out.signing out.now code w

verify_submit-Own :
    (out : Outside) (body : List ℕ) (w : World)
    → is_pod_answer (answer_or_500 w (handle_verify_submit out.lossy out.signing out.now body w)).0
      ≡ false
unfolding handle_verify_submit
verify_submit-Own out body w = elim (Option-cases (user_code_field body)) [
  | inl e ↦ rw (handle_verify_submit, e) refl
  | inr (value, e) ↦ rw (handle_verify_submit, e) (submit-Own out (decoded out.lossy value) w)
]

handle-IsServed :
    (out : Outside) (r : Request) (peer : Option String) (body : List ℕ) (route : Route) (w : World)
    → is_pod_answer (handle out r peer body route w).0 ≡ true
    → IsServed w.db r.path peer
handle-IsServed out r peer body to_device_code w h =
    let own =
      device_code-Own out.csr_is_valid_ed25519 out.now out.random
        (out.parse_device_code (body_string out body)) w in
    absurd (ground (arith, h, own))
handle-IsServed out r peer body to_device_token w h =
    let own =
      device_token-Own out.root_cert_pem out.now (out.parse_device_token (body_string out body))
        w in
    absurd (ground (arith, h, own))
handle-IsServed out r peer body to_verify_page w h =
    let own = verify_page-Own out r.query in absurd (ground (arith, h, own))
handle-IsServed out r peer body to_verify_submit w h =
    let own = verify_submit-Own out (body_string out body) w in absurd (ground (arith, h, own))
handle-IsServed out r peer body to_git w h =
    git_http-IsServed out r peer body (git_http_path r.path) w refl h
handle-IsServed out r peer body no_method w h = absurd (ground (arith, h))

with_body-IsServed :
    (out : Outside) (r : Request) (peer : Option String) (route : Route) (o : Option (List ℕ))
    (w : World)
    → is_pod_answer (with_body out r peer route o w).0 ≡ true
    → IsServed w.db r.path peer
with_body-IsServed out r peer no_method o w h = absurd (ground (arith, h))
with_body-IsServed out r peer to_device_code none w h = absurd (ground (arith, h))
with_body-IsServed out r peer to_device_token none w h = absurd (ground (arith, h))
with_body-IsServed out r peer to_verify_page none w h = absurd (ground (arith, h))
with_body-IsServed out r peer to_verify_submit none w h = absurd (ground (arith, h))
with_body-IsServed out r peer to_git none w h = absurd (ground (arith, h))
with_body-IsServed out r peer to_device_code (some body) w h =
    handle-IsServed out r peer body to_device_code w h
with_body-IsServed out r peer to_device_token (some body) w h =
    handle-IsServed out r peer body to_device_token w h
with_body-IsServed out r peer to_verify_page (some body) w h =
    handle-IsServed out r peer body to_verify_page w h
with_body-IsServed out r peer to_verify_submit (some body) w h =
    handle-IsServed out r peer body to_verify_submit w h
with_body-IsServed out r peer to_git (some body) w h = handle-IsServed out r peer body to_git w h

-- Whatever request comes in, whatever its body, the parties outside and the failing statements, it
-- is answered by a pod only if its path is the one of a git request for a tenant and the peer's
-- certificate belongs to a registered device of that tenant that is not revoked.
pub serve-IsServed :
    (out : Outside) (r : Request) (peer : Option String) (w : World)
    → is_pod_answer (serve out r peer w).0 ≡ true
    → IsServed w.db r.path peer
unfolding serve
serve-IsServed out r peer w = with_body-IsServed out r peer (route_for r.method r.path) r.body w
