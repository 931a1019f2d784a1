-- ===== src/Hub/Steps/Phase/Kept.antt =====
-- Each change to the tables is a number of moves of the machine, or none.
use wkp.Base.{
  ℕ, ◌≡◌, refl, ap, ◌∙◌, subst, inl, inr, Bool, true, false, not, Option, none, some, List, ◌∷◌,
  arith, ◌==◌, if◌then◌else◌, ==_iff, Bool-cases, Option-cases, is_some,
}
use wkp.Str.{Text}
use wkp.Str.Laws.{text_eq_iff}
use wkp.Base.Branch.{branch}
use wkp.Hub.Store.{Db, World, Device, DeviceGrant, find_by, update_where}
use wkp.Hub.Control.{is_device, new_device}
use wkp.Hub.Grants.{new_grant, has_device_code, is_grant}
use wkp.Hub.Rows.{
  all-find_by, all-same_row, find_by_passes, find_by-update_where, find_by_below, ids_below,
  is_some-find_by-update_where,
}
use wkp.Hub.Tables.{IsEdit, IsKept, IsWellFormed, approval_holds, approval_of}
use wkp.Hub.Tables.WellFormed.{IsWellFormed-IsKept}
use wkp.Hub.Steps.{Steps}
use wkp.Hub.Rows.{missing_of}
use wkp.Hub.Steps.Reach.{steps_kept, empty_db, reached-IsWellFormed}
use wkp.Hub.Steps.Phase.{
  Phase, absent, pending, approved, issued, device_phase, approval_phase, grant_phase, phase, Moves,
  Moves-trans, stays, moves, appears, is_approved, gets_certificate,
}

-- The phase was `p`, and the tables have gone on from there.
record IsPast (code : Text) (p : Phase) (db : Db) : Type 0 where
  references : IsWellFormed db
  past : Moves p (phase code db)

stay_with : (p q r : Phase) → Moves p q → q ≡ r → Moves p r
stay_with p q r pq e = subst (Moves p) e pq

-- A device that is found stays the one that is found when another is added.
approval_phase-cons :
    (devices : List Device) (row : Device) (n : ℕ) (tenant_id : ℕ) (o : Option ℕ)
    → ids_below Device.id n devices ≡ true
    → row.id ≡ n
    → approval_of devices tenant_id o ≡ true
    → approval_phase devices o ≡ approval_phase (row ∷ devices) o
approval_phase-cons devices row n tenant_id none below e h = refl
approval_phase-cons devices row n tenant_id (some id) below e h =
    elim (Option-cases (find_by (is_device id) devices)) [
      | inl missing ↦ absurd (ground (arith, h, missing))
      | inr (d, found) ↦
          let less = find_by_below Device.id n (is_device id) devices d below found in
          let same : (d.id == id) ≡ true = find_by_passes (is_device id) devices d found in
          let apart : (row.id == id) ≡ false =
            ground (arith, less, same, e, ==_iff d.id id, ==_iff row.id id) in
          rw apart refl
    ]

Moves-approved : (id : ℕ) (o : Option Device) → Moves (approved id) (device_phase id o)
Moves-approved id none = stays (approved id)
Moves-approved id (some d) = elim (Bool-cases (is_some d.certificate_pem)) [
  | inl e ↦ rw e (moves _ _ _ (stays (approved id)) (gets_certificate id))
  | inr e ↦ rw e (stays (approved id))
]

-- An edit of the devices issues a certificate or changes no phase.
approval_phase-update_where :
    (devices : List Device) (q : Device → Bool) (f : Device → Device) (o : Option ℕ)
    → IsEdit f
    → Moves (approval_phase devices o) (approval_phase (update_where q f devices) o)
approval_phase-update_where devices q f none edit = stays pending
approval_phase-update_where devices q f (some id) edit =
    elim (Option-cases (find_by (is_device id) devices)) [
      | inl missing ↦
          rw missing (Moves-approved id (find_by (is_device id) (update_where q f devices)))
      | inr (d, found) ↦
          let found' =
            find_by-update_where (is_device id) q f devices d
              (λ y. ap (λ i. i == id) (edit.keeps_id y)) found in
          elim (Bool-cases (is_some d.certificate_pem)) [
            | inl e ↦
                let kept : is_some (if q d then f d else d).certificate_pem ≡ true =
                  branch (λ (x : Device). is_some x.certificate_pem ≡ true) (q d) (f d) d
                    (λ _. edit.keeps_certified d e) (λ _. e) in
                rw (found, found', e, kept) (stays (issued id))
            | inr e ↦ rw (found, found', e) (Moves-approved id (some (if q d then f d else d)))
          ]
    ]

phase-cons :
    (code : Text) (db : Db) (row : Device)
    → IsWellFormed db
    → row.id ≡ db.next_device
    → phase code db
      ≡ grant_phase (row ∷ db.devices) (find_by (has_device_code code) db.device_grants)
phase-cons code db row h e = elim (Option-cases (find_by (has_device_code code) db.device_grants)) [
  | inl missing ↦ rw missing refl
  | inr (g, found) ↦
      let holds =
        all-find_by (approval_holds db.devices) (has_device_code code) db.device_grants g
          h.approvals found in
      rw found (
        approval_phase-cons db.devices row db.next_device g.tenant_id g.approved_device_id
          h.device_ids e holds)
]

phase-edit :
    (code : Text) (db : Db) (q : Device → Bool) (f : Device → Device)
    → IsEdit f
    → Moves (phase code db) (
        grant_phase (update_where q f db.devices) (find_by (has_device_code code) db.device_grants))
phase-edit code db q f edit =
    elim (Option-cases (find_by (has_device_code code) db.device_grants)) [
      | inl missing ↦ rw missing (stays absent)
      | inr (g, found) ↦
          rw found (approval_phase-update_where db.devices q f g.approved_device_id edit)
    ]

-- A new grant brings a code that was absent.
phase-add :
    (code : Text) (db : Db) (row : DeviceGrant)
    → find_by (has_device_code row.device_code) db.device_grants ≡ none
    → row.approved_device_id ≡ none
    → Moves
        (phase code db)
        (grant_phase db.devices (find_by (has_device_code code) (row ∷ db.device_grants)))
phase-add code db row fresh waiting = elim (Bool-cases (has_device_code code row)) [
  | inl e ↦
      let same : row.device_code ≡ code = (text_eq_iff row.device_code code).0 e in
      let unused : find_by (has_device_code code) db.device_grants ≡ none =
        subst (λ c. find_by (has_device_code c) db.device_grants ≡ none) same fresh in
      rw (e, unused, waiting) (moves _ _ _ (stays absent) appears)
  | inr e ↦ rw e (stays (phase code db))
]

phase-approve :
    (code : Text) (db : Db) (p : DeviceGrant → Bool) (grant : DeviceGrant) (device_id : ℕ)
    → IsWellFormed db
    → find_by p db.device_grants ≡ some grant
    → grant.approved_device_id ≡ none
    → Moves (phase code db) (
        grant_phase db.devices (
          find_by (has_device_code code) (
            update_where
              (is_grant grant.id)
              (λ g. record g { approved_device_id = some device_id })
              db.device_grants)))
phase-approve code db p grant device_id h found waiting =
    elim (Option-cases (find_by (has_device_code code) db.device_grants)) [
      | inl missing ↦
          let missing' = missing_of _ (
            is_some-find_by-update_where (has_device_code code) (is_grant grant.id)
              (λ x. record x { approved_device_id = some device_id }) db.device_grants (λ x. refl)
            ∙ ap is_some missing) in
          rw (missing, missing') (stays absent)
      | inr (g, known) ↦
          let found' =
            find_by-update_where (has_device_code code) (is_grant grant.id)
              (λ x. record x { approved_device_id = some device_id }) db.device_grants g (λ x. refl)
              known in
          let rows =
            all-same_row DeviceGrant.id db.next_grant p (λ x. not (is_some x.approved_device_id))
              db.device_grants grant h.grant_ids found (rw waiting refl) in
          let row = all-find_by _ (has_device_code code) db.device_grants g rows known in
          elim (Bool-cases (g.id == grant.id)) [
            | inl e ↦
                let waits : g.approved_device_id ≡ none = missing_of _ (ground (arith, row, e)) in
                rw (known, found', e, waits)
                  (Moves-trans _ _ _ (moves _ _ _ (stays pending) (is_approved device_id))
                    (Moves-approved device_id (find_by (is_device device_id) db.devices)))
            | inr e ↦ rw (known, found', e) (stays (approval_phase db.devices g.approved_device_id))
          ]
    ]

-- The phase of a code goes on from `p` under each change to the tables.
IsPast-IsKept : (code : Text) (p : Phase) → IsKept (IsPast code p)
IsPast-IsKept code p = record {
  references = λ db h. h.references;
  number_tenant = λ db h. record {
    references = IsWellFormed-IsKept.number_tenant db h.references;
    past = h.past;
  };
  add_tenant = λ db now slug h. record {
    references = IsWellFormed-IsKept.add_tenant db now slug h.references;
    past = h.past;
  };
  edit_tenants = λ db q f keeps h. record {
    references = IsWellFormed-IsKept.edit_tenants db q f keeps h.references;
    past = h.past;
  };
  number_device = λ db h. record {
    references = IsWellFormed-IsKept.number_device db h.references;
    past = h.past;
  };
  add_device = λ db now tenant_id public_key served h. record {
    references = IsWellFormed-IsKept.add_device db now tenant_id public_key served h.references;
    past =
        subst (Moves p)
          (phase-cons code db (new_device now db.next_device tenant_id public_key) h.references
            refl)
          h.past;
  };
  edit_devices = λ db q f edit h. record {
    references = IsWellFormed-IsKept.edit_devices db q f edit h.references;
    past = Moves-trans p _ _ h.past (phase-edit code db q f edit);
  };
  number_grant = λ db h. record {
    references = IsWellFormed-IsKept.number_grant db h.references;
    past = h.past;
  };
  add_grant = λ db now tenant_id csr_pem r served fresh h. record {
    references = IsWellFormed-IsKept.add_grant db now tenant_id csr_pem r served fresh h.references;
    past =
        Moves-trans p _ _ h.past
          (phase-add code db (new_grant now db.next_grant tenant_id csr_pem r) fresh refl);
  };
  approve = λ db q grant device_id found waiting own h. record {
    references = IsWellFormed-IsKept.approve db q grant device_id found waiting own h.references;
    past =
        Moves-trans p _ _ h.past
          (phase-approve code db q grant device_id h.references found waiting);
  };
  announce = λ db events notices h. record {
    references = IsWellFormed-IsKept.announce db events notices h.references;
    past = h.past;
  };
}

-- The control plane implements the state machine of the device flow: from a state that is reached
-- from an empty database, any sequence of requests, commands and failing statements takes the phase
-- of each code through moves of the machine: it appears, is approved for a device, gets a certificate.
pub phase_refines :
    (faults : List Bool) (w w' : World) (code : Text)
    → Steps (record { db = empty_db; faults = faults }) w
    → Steps w w'
    → Moves (phase code w.db) (phase code w'.db)
phase_refines faults w w' code before after =
    let start : IsPast code (phase code w.db) w.db = record {
      references = reached-IsWellFormed faults w before;
      past = stays (phase code w.db);
    } in
    (steps_kept (IsPast code (phase code w.db)) (IsPast-IsKept code (phase code w.db)) w w' after
      start).past
