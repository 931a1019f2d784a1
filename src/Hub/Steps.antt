-- ===== src/Hub/Steps.antt =====
-- What can happen to the control plane: a request, an operator's command, or the reaper's, with any
-- answers of the parties outside, and Postgres failing any of the coming statements.
pub mod Keep
pub mod KeepVerify
pub mod KeepToken
pub mod Reach
pub mod Own
pub mod Final
pub mod Phase
use wkp.Base.{
  ℕ, zero, suc, ◌+◌, ◌-◌, ◌*◌, ◌/◌, ◌%◌, ◌^◌, ◌≤◌, ◌<◌, min, max, String, ◌≡◌, refl, sym, ap, ap₂,
  ◌∙◌, subst, ◌≡⟨◌⟩◌, ◌∎, ◌≢◌, ◌↔◌, ◌⊎◌, inl, inr, Bool, true, false, not, ◌&&◌, ◌||◌, Option, none,
  some, List, [], ◌∷◌, ◌++◌, map, append-nil, append_assoc, arith, ltb, leb, ◌==◌, if◌then◌else◌,
  ==_iff, Bool-cases, Option-cases, &&-elim, length, take, drop, flatten, filter, take_while, all,
  any, is_empty, length-append, take-append, drop-append, filter_map, or_else, is_some, map_option,
  ◌>>=◌, all-append, drop_past, push_some,
}
use wkp.Str.{Text}
use wkp.Hub.Store.{Db, World}
use wkp.Hub.Control.{
  register_device, create_tenant, set_always_warm, record_pod_stopped, revoke_device,
  reset_all_connections,
}
use wkp.Hub.Grants.{Random}
use wkp.Hub.Gate.{Pods, GitRequest, handle_git_http}
use wkp.Hub.Enrol.{
  CsrCheck, DeviceCodeRequest, handle_device_code, handle_device_token, Signing, verify_code,
}

abbrev pub with_faults : List Bool → World → World
with_faults faults w = record { db = w.db; faults = faults }

pub data Step (w : World) : World → Type 0 where
  fail_next : (faults : List Bool) → Step w (with_faults faults w)
  create : (now : ℕ) (slug : Text) → Step w (create_tenant now slug w).1
  register :
      (now tenant_id : ℕ) (public_key : String)
      → Step w (register_device now tenant_id public_key w).1
  warm : (id : ℕ) (always_warm : Bool) → Step w (set_always_warm id always_warm w).1
  stop_pod : (id : ℕ) → Step w (record_pod_stopped id w).1
  revoke : (now id : ℕ) → Step w (revoke_device now id w).1
  reset : (performed_by : Text) → Step w (reset_all_connections performed_by w).1
  git :
      (pods : Pods) (now : ℕ) (r : GitRequest) (peer : Option String)
      → Step w (handle_git_http pods now r peer w).1
  ask_codes :
      (check : CsrCheck) (now : ℕ) (random : Option Random) (r : Option DeviceCodeRequest)
      → Step w (handle_device_code check now random r w).1
  poll :
      (root : String) (now : ℕ) (code : Option Text)
      → Step w (handle_device_token root now code w).1
  verify :
      (signing : Signing) (now : ℕ) (user_code : Text)
      → Step w (verify_code signing now user_code w).1

pub data Steps (w : World) : World → Type 0 where
  here : Steps w w
  and_then : (w' w'' : World) → Steps w w' → Step w' w'' → Steps w w''
