-- ===== src/Hub/Gate/Answers.antt =====
-- What a device of the tenant gets, and that another tenant is not told from one that is not there.
use wkp.Base.{
  ℕ, zero, suc, ◌+◌, ◌≤◌, ◌<◌, String, ◌≡◌, refl, sym, ◌∙◌, subst, ◌≢◌, inl, inr, Bool, true, false,
  ◌||◌, Option, none, some, List, [], ◌∷◌, arith, ◌==◌, if◌then◌else◌, ==_iff, Bool-cases, is_some,
}
use text.Mathlib.Text.{◌==◌ as str_eq}
use wkp.Hub.Store.{Db, World, Device, Tenant, find_by}
use wkp.Hub.Control.{
  has_serial, has_slug, find_device_by_cert_serial, find_tenant_by_slug, touch_last_active,
}
use wkp.Hub.Reply.{PodResponse, status_only, Handler, reply, connect}
use wkp.Hub.Gate.{
  PodRequest, Pods, GitRequest, handle_git_http, with_serial, with_device, with_pod, attempts,
  pod_url, proxy_to_tenant_pod, relayed,
}
use wkp.Hub.Gate.Safety.{MayReach}

-- The first attempt that gets an answer, where one of those left does.
attempts_first :
    (call : ℕ → Option PodResponse) (response : PodResponse) (m n left : ℕ)
    → n ≤ m
    → m < n + left
    → ((i : ℕ) → i < m → call i ≡ none)
    → call m ≡ some response
    → attempts call n left ≡ relayed response
unfolding attempts
attempts_first call response m n zero le lt silent answered = absurd (omega arith)
attempts_first call response m n (suc left) le lt silent answered = elim (Bool-cases (n == m)) [
  | inl e ↦
      let same : m ≡ n = ground (arith, e, ==_iff n m) in
      let now : call n ≡ some response = subst (λ i. call i ≡ some response) same answered in
      rw (attempts, now) refl
  | inr e ↦
      let apart : n < m = ground (arith, e, le, ==_iff n m) in
      rw (attempts, silent n apart)
        (attempts_first call response m (n + 1) left (omega arith) (omega arith) silent answered)
]

abbrev pub the_request : GitRequest → Bool → PodRequest
unfolding pod_url
the_request r get = record {
  url = pod_url r.tenant_slug r.suffix r.query;
  get = get;
  content_type = r.content_type;
  body = if get then [] else r.body;
}

pod_answers :
    (pods : Pods) (now : ℕ) (get : Bool) (r : GitRequest) (tenant : Tenant) (w : World)
    → (tenant.pod_running || pods.start_pod r.tenant_slug) ≡ true
    → (with_pod pods now get r tenant w).0 ≡ proxy_to_tenant_pod pods get r
unfolding with_pod
pod_answers pods now get r tenant w up = elim (Bool-cases tenant.pod_running) [
  | inl e ↦ rw e refl
  | inr e ↦
      let starts : pods.start_pod r.tenant_slug ≡ true = ground (arith, up, e) in
      rw (e, starts) refl
]

serial_answers :
    (pods : Pods) (now : ℕ) (get : Bool) (r : GitRequest) (peer : Option String) (db : Db)
    → (reach : MayReach db r.tenant_slug peer)
    → (reach.tenant.pod_running || pods.start_pod r.tenant_slug) ≡ true
    → (with_serial pods now get r peer (record { db = db; faults = [] })).0
      ≡ proxy_to_tenant_pod pods get r
unfolding connect find_device_by_cert_serial find_tenant_by_slug touch_last_active
serial_answers pods now get r peer db reach up =
    let own : (reach.device.tenant_id == reach.tenant.id) ≡ true =
      ground (arith, reach.own, ==_iff reach.device.tenant_id reach.tenant.id) in
    rw (reach.presented, reach.known, reach.not_revoked, reach.served, own)
      (pod_answers pods now get r reach.tenant _ up)

-- A GET or POST with the certificate of a device of the tenant that is not revoked, where no
-- statement fails and the pod runs or can be started, gets the first answer that the pod gives in
-- the ten attempts.
pub handle_git_http_answers :
    (pods : Pods) (now : ℕ) (get : Bool) (r : GitRequest) (peer : Option String) (db : Db)
    (response : PodResponse) (m : ℕ)
    → r.method ≡ (if get then "GET" else "POST")
    → (reach : MayReach db r.tenant_slug peer)
    → (reach.tenant.pod_running || pods.start_pod r.tenant_slug) ≡ true
    → m < 10
    → ((i : ℕ) → i < m → pods.call (the_request r get) i ≡ none)
    → pods.call (the_request r get) m ≡ some response
    → (handle_git_http pods now r peer (record { db = db; faults = [] })).0 ≡ relayed response
unfolding handle_git_http proxy_to_tenant_pod
handle_git_http_answers pods now true r peer db response m method reach up lt silent answered =
    rw method (
      serial_answers pods now true r peer db reach up
      ∙ attempts_first _ response m 0 10 (omega arith) lt silent answered)
handle_git_http_answers pods now false r peer db response m method reach up lt silent answered =
    rw method (
      serial_answers pods now false r peer db reach up
      ∙ attempts_first _ response m 0 10 (omega arith) lt silent answered)

tenant_hidden :
    (pods : Pods) (now : ℕ) (get : Bool) (r r' : GitRequest) (device : Device) (other : Tenant)
    (faults : List Bool) (db : Db)
    → is_some device.revoked_at ≡ false
    → find_by (has_slug r.tenant_slug) db.tenants ≡ none
    → find_by (has_slug r'.tenant_slug) db.tenants ≡ some other
    → (device.tenant_id == other.id) ≡ false
    → with_device pods now get r (some device) (record { db = db; faults = faults })
      ≡ with_device pods now get r' (some device) (record { db = db; faults = faults })
unfolding find_tenant_by_slug
tenant_hidden pods now get r r' device other [] db active unknown known foreign =
    rw (active, unknown, known, foreign) refl
tenant_hidden pods now get r r' device other (true ∷ fs) db active unknown known foreign =
    rw active refl
tenant_hidden pods now get r r' device other (false ∷ fs) db active unknown known foreign =
    rw (active, unknown, known, foreign) refl

serial_hidden :
    (pods : Pods) (now : ℕ) (get : Bool) (r r' : GitRequest) (serial : String) (device : Device)
    (other : Tenant) (faults : List Bool) (db : Db)
    → find_by (has_serial serial) db.devices ≡ some device
    → is_some device.revoked_at ≡ false
    → find_by (has_slug r.tenant_slug) db.tenants ≡ none
    → find_by (has_slug r'.tenant_slug) db.tenants ≡ some other
    → (device.tenant_id == other.id) ≡ false
    → with_serial pods now get r (some serial) (record { db = db; faults = faults })
      ≡ with_serial pods now get r' (some serial) (record { db = db; faults = faults })
unfolding connect find_device_by_cert_serial
serial_hidden pods now get r r' serial device other [] db registered a u k f =
    rw registered (tenant_hidden pods now get r r' device other [] db a u k f)
serial_hidden pods now get r r' serial device other (true ∷ fs) db registered a u k f = refl
serial_hidden pods now get r r' serial device other (false ∷ []) db registered a u k f =
    rw registered (tenant_hidden pods now get r r' device other [] db a u k f)
serial_hidden pods now get r r' serial device other (false ∷ true ∷ fs) db registered a u k f = refl
serial_hidden pods now get r r' serial device other (false ∷ false ∷ fs) db registered a u k f =
    rw registered (tenant_hidden pods now get r r' device other fs db a u k f)

abbrev by_method : String → Handler → Handler → Handler
by_method m got posted =
    if str_eq m "GET" then got else if str_eq m "POST" then posted else reply (status_only 405)

by_method-same :
    (m : String) (got posted got' posted' : Handler) (w : World)
    → got w ≡ got' w
    → posted w ≡ posted' w
    → by_method m got posted w ≡ by_method m got' posted' w
by_method-same m got posted got' posted' w g p = elim (Bool-cases (str_eq m "GET")) [
  | inl e ↦ rw e g
  | inr e ↦ elim (Bool-cases (str_eq m "POST")) [ inl e' ↦ rw (e, e') p | inr e' ↦ rw (e, e') refl ]
]

-- A device that is not revoked cannot tell the repository of another tenant from one that does not
-- exist: requests for the two with one method get the same answer and leave the same database and
-- the same coming faults, whatever those are.
pub handle_git_http_hides :
    (pods : Pods) (now : ℕ) (r r' : GitRequest) (serial : String) (device : Device) (other : Tenant)
    (w : World)
    → r.method ≡ r'.method
    → find_by (has_serial serial) w.db.devices ≡ some device
    → is_some device.revoked_at ≡ false
    → find_by (has_slug r.tenant_slug) w.db.tenants ≡ none
    → find_by (has_slug r'.tenant_slug) w.db.tenants ≡ some other
    → device.tenant_id ≢ other.id
    → handle_git_http pods now r (some serial) w ≡ handle_git_http pods now r' (some serial) w
unfolding handle_git_http
handle_git_http_hides pods now r r' serial device other w method registered a u k f =
    let apart : (device.tenant_id == other.id) ≡ false =
      ground (arith, f, ==_iff device.tenant_id other.id) in
    let hidden = λ (get : Bool).
      serial_hidden pods now get r r' serial device other w.faults w.db registered a u k apart in
    subst
      (λ m.
        by_method m (with_serial pods now true r (some serial))
          (with_serial pods now false r (some serial)) w
        ≡ handle_git_http pods now r' (some serial) w)
      (sym method) (by_method-same r'.method _ _ _ _ w (hidden true) (hidden false))
