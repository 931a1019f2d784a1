-- ===== src/Hub/Reply.antt =====
-- http.rs: what a handler answers. A handler is a function of the database's state; the texts of an
-- error that only is shown are left out.
use wkp.Base.{ℕ, String, Option, List, []}
use wkp.Str.{codes, Text}
use wkp.Hub.Store.{Error, Result, ok, err, World, Action, statement}

-- A header whose value is no text has `none`.
pub record PodResponse : Type 0 where
  pub status : ℕ
  pub headers : List (Text × Option Text)
  pub body : List ℕ

pub data Body : Type 0 where
  empty_body : Body
  error_body : String → Body
  described : Error → Body
  invalid_body : Body
  device_codes : Text → Text → String → ℕ → ℕ → Body
  token_success : String → Text → ℕ → String → String → Body
  html_text : String → Body
  html_error : Error → Body
  verify_form : Text → Body
  pod_bytes : List ℕ → Body

pub record Rendered : Type 0 where
  pub status : ℕ
  pub content_type : Text
  pub extra_headers : List (Text × Text)
  pub body : Body

abbrev pub json : ℕ → Body → Rendered
json status body = record {
  status = status;
  content_type = codes "application/json";
  extra_headers = [];
  body = body;
}

abbrev pub html : ℕ → Body → Rendered
html status body = record {
  status = status;
  content_type = codes "text/html; charset=utf-8";
  extra_headers = [];
  body = body;
}

abbrev pub status_only : ℕ → Rendered
status_only status = record {
  status = status;
  content_type = codes "text/plain";
  extra_headers = [];
  body = empty_body;
}

unfoldable pub not_found_page : Rendered
not_found_page = json 404 (error_body "not_found")

abbrev pub Handler : Type 0
Handler = World → Rendered × World

abbrev pub reply : Rendered → Handler
reply r w = (r, w)

abbrev pub resume :
    {A : Type 0} → (Error → Rendered) → (A → Handler) → Result A × World → Rendered × World
resume failed k (r, w) = elim r [ ok a ↦ k a w | err e ↦ (failed e, w) ]

-- `match` on the result of an action.
abbrev pub match_result : {A : Type 0} → Action A → (Error → Rendered) → (A → Handler) → Handler
match_result m failed k w = resume failed k (m w)

-- `if let Err(e)` that only logs.
abbrev pub ignore_error : {A : Type 0} → Action A → Handler → Handler
ignore_error m k w = let (r, w') = m w in k w'

-- `connect`, with the schema's `CREATE TABLE IF NOT EXISTS`
unfoldable pub connect : Action Unit
connect = statement λ db. (ok tt, db)
