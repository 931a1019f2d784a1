-- ===== src/Hub/Steps/Phase.antt =====
-- The device flow of RFC 8628 as a state machine, which the tables implement.
pub mod Kept
use wkp.Base.{
  ℕ, zero, suc, ◌+◌, ◌-◌, ◌*◌, ◌/◌, ◌%◌, ◌^◌, ◌≤◌, ◌<◌, min, max, String, ◌≡◌, refl, sym, ap, ap₂,
  ◌∙◌, subst, ◌≡⟨◌⟩◌, ◌∎, ◌≢◌, ◌↔◌, ◌⊎◌, inl, inr, Bool, true, false, not, ◌&&◌, ◌||◌, Option, none,
  some, List, [], ◌∷◌, ◌++◌, map, append-nil, append_assoc, arith, ltb, leb, ◌==◌, if◌then◌else◌,
  ==_iff, Bool-cases, Option-cases, &&-elim, length, take, drop, flatten, filter, take_while, all,
  any, is_empty, length-append, take-append, drop-append, filter_map, or_else, is_some, map_option,
  ◌>>=◌, all-append, drop_past, push_some,
}
use wkp.Str.{Text}
use wkp.Str.Laws.{text_eq_iff}
use wkp.Hub.Store.{Db, World, Device, DeviceGrant, find_by, update_where}
use wkp.Hub.Control.{is_device, new_device}
use wkp.Hub.Grants.{new_grant, has_device_code, is_grant}
use wkp.Hub.Rows.{
  all-find_by, all-same_row, find_by_passes, find_by-update_where, find_by_below, ids_below,
  is_some-find_by-update_where,
}
use wkp.Hub.Tables.{IsEdit, IsKept, IsWellFormed, approval_holds, approval_of}
use wkp.Hub.Tables.WellFormed.{IsWellFormed-IsKept}
use wkp.Hub.Steps.{Steps}
use wkp.Hub.Rows.{missing_of}
use wkp.Hub.Steps.Reach.{steps_kept, empty_db, reached-IsWellFormed}

-- No such code; one that nobody has approved; one that is approved for a device, without and with
-- a certificate.
pub data Phase : Type 0 where
  absent pending : Phase
  approved issued : ℕ → Phase

abbrev pub device_phase : ℕ → Option Device → Phase
device_phase id none = approved id
device_phase id (some d) = if is_some d.certificate_pem then issued id else approved id

abbrev pub approval_phase : List Device → Option ℕ → Phase
approval_phase devices none = pending
approval_phase devices (some id) = device_phase id (find_by (is_device id) devices)

abbrev pub grant_phase : List Device → Option DeviceGrant → Phase
grant_phase devices none = absent
grant_phase devices (some g) = approval_phase devices g.approved_device_id

-- The abstract state that the tables stand for.
abbrev pub phase : Text → Db → Phase
phase code db = grant_phase db.devices (find_by (has_device_code code) db.device_grants)

-- The moves of the machine: a code appears, is approved for one device, and gets a certificate.
pub data Move : Phase → Phase → Type 0 where
  appears : Move absent pending
  is_approved : (id : ℕ) → Move pending (approved id)
  gets_certificate : (id : ℕ) → Move (approved id) (issued id)

pub data Moves : Phase → Phase → Type 0 where
  stays : (p : Phase) → Moves p p
  moves : (p q r : Phase) → Moves p q → Move q r → Moves p r

pub Moves-trans : (p q r : Phase) → Moves p q → Moves q r → Moves p r
Moves-trans p q _ pq (stays _) = pq
Moves-trans p q _ pq (moves _ q' r qq' m) = moves p q' r (Moves-trans p q q' pq qq') m
