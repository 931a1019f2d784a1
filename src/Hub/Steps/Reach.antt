-- ===== src/Hub/Steps/Reach.antt =====
-- What holds of each state that the control plane reaches.
use wkp.Base.{refl, Bool, List, []}
use wkp.Hub.Store.{Db, World}
use wkp.Hub.Tables.{IsKept, IsWellFormed}
use wkp.Hub.Tables.WellFormed.{IsWellFormed-IsKept}
use wkp.Hub.Steps.{
  Step, Steps, register, fail_next, create, warm, stop_pod, revoke, reset, git, ask_codes, poll,
  verify, here, and_then,
}
use wkp.Hub.Steps.Keep.{
  create_tenant_kept, set_always_warm_kept, record_pod_stopped_kept, revoke_device_kept,
  reset_all_connections_kept, handle_git_http_kept,
}
use wkp.Hub.Steps.KeepVerify.{register_device_kept, verify_code_kept, handle_device_code_kept}
use wkp.Hub.Steps.KeepToken.{handle_device_token_kept}

module _ (I : Db → Type 0) (k : IsKept I) where
  step_kept : (w w' : World) → Step w w' → I w.db → I w'.db
  step_kept w _ (fail_next faults) h = h
  step_kept w _ (create now slug) h = create_tenant_kept I k now slug w h
  step_kept w _ (register now tenant_id public_key) h =
      register_device_kept I k now tenant_id public_key w h
  step_kept w _ (warm id always_warm) h = set_always_warm_kept I k id always_warm w h
  step_kept w _ (stop_pod id) h = record_pod_stopped_kept I k id w h
  step_kept w _ (revoke now id) h = revoke_device_kept I k now id w h
  step_kept w _ (reset performed_by) h = reset_all_connections_kept I k performed_by w h
  step_kept w _ (git pods now r peer) h = handle_git_http_kept I k pods now r peer w h
  step_kept w _ (ask_codes check now random r) h =
      handle_device_code_kept I k check now random r w h
  step_kept w _ (poll root now code) h = handle_device_token_kept I k root now code w h
  step_kept w _ (verify signing now user_code) h = verify_code_kept I k signing now user_code w h

  -- What each change to the tables keeps holds after any sequence of steps.
  pub steps_kept : (w w' : World) → Steps w w' → I w.db → I w'.db
  steps_kept w _ here h = h
  steps_kept w _ (and_then w' w'' before step) h = step_kept w' w'' step (steps_kept w w' before h)

-- The database of a new installation.
abbrev pub empty_db : Db
empty_db = record {
  tenants = [];
  devices = [];
  device_grants = [];
  connection_reset_events = [];
  notices = [];
  next_tenant = 1;
  next_device = 1;
  next_grant = 1;
}

empty_db-IsWellFormed : IsWellFormed empty_db
empty_db-IsWellFormed = record {
  device_tenants = refl;
  grant_tenants = refl;
  approvals = refl;
  device_ids = refl;
  grant_ids = refl;
}

-- In each state that is reached from an empty database by any sequence of requests, commands and
-- failing statements, the devices and the grants belong to tenants that exist, their numbers are
-- distinct and below the next one, and an approved grant names a device of its own tenant.
pub reached-IsWellFormed :
    (faults : List Bool) (w : World)
    → Steps (record { db = empty_db; faults = faults }) w
    → IsWellFormed w.db
reached-IsWellFormed faults w steps =
    steps_kept IsWellFormed IsWellFormed-IsKept _ w steps empty_db-IsWellFormed
