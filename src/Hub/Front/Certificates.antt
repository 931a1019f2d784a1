-- ===== src/Hub/Front/Certificates.antt =====
-- Which certificates pass the handshake.
use wkp.Hub.Store.{ok, Db, World, Device, find_by}
use wkp.Hub.Control.{is_device, has_serial, revoke_device, find_device_by_cert_serial}
use wkp.Hub.Reply.{connect}
use wkp.Hub.Front.{verified, handshake_of, verify_client_cert}
use wkp.Hub.Tables.Revoked.{IsRevoked, IsRevoked-IsKept}
use wkp.Hub.Steps.{Steps}
use wkp.Hub.Steps.Reach.{empty_db, steps_kept, reached-IsWellFormed}
use wkp.Hub.Steps.Final.{some_injective, revoke_device-IsRevoked, revoked_row}
use wkp.Base.{
  ℕ, String, ◌≡◌, refl, sym, ap, ◌∙◌, subst, ◌≢◌, ◌↔◌, inl, inr, Bool, true, false, Option, none,
  some, List, [], ◌∷◌, arith, Bool-cases, is_some,
}

-- The certificate is the one of a registered device that is not revoked.
pub record IsAdmitted (db : Db) (chain : Bool) (presented : Option String) : Type 0 where
  pub serial : String
  pub device : Device
  pub trusted : chain ≡ true
  pub named : presented ≡ some serial
  pub known : find_by (has_serial serial) db.devices ≡ some device
  pub not_revoked : is_some device.revoked_at ≡ false

device-IsAdmitted :
    (db : Db) (serial : String) (o : Option Device)
    → find_by (has_serial serial) db.devices ≡ o
    → handshake_of o ≡ verified
    → IsAdmitted db true (some serial)
device-IsAdmitted db serial none known h = absurd (ground (arith, h))
device-IsAdmitted db serial (some device) known h = elim (Bool-cases (is_some device.revoked_at)) [
  | inl e ↦ absurd (ground (arith, h, e))
  | inr e ↦ record {
    serial = serial;
    device = device;
    trusted = refl;
    named = refl;
    known = known;
    not_revoked = e;
  }
]

-- Two statements at most are run.
serial-IsAdmitted :
    (serial : String) (faults : List Bool) (db : Db)
    → (verify_client_cert true (some serial) (record { db = db; faults = faults })).0 ≡ verified
    → IsAdmitted db true (some serial)
unfolding verify_client_cert connect find_device_by_cert_serial
serial-IsAdmitted serial [] db h = device-IsAdmitted db serial _ refl h
serial-IsAdmitted serial (true ∷ fs) db h = absurd (ground (arith, h))
serial-IsAdmitted serial (false ∷ []) db h = device-IsAdmitted db serial _ refl h
serial-IsAdmitted serial (false ∷ true ∷ fs) db h = absurd (ground (arith, h))
serial-IsAdmitted serial (false ∷ false ∷ fs) db h = device-IsAdmitted db serial _ refl h

pub verify_client_cert-IsAdmitted :
    (chain : Bool) (presented : Option String) (w : World)
    → (verify_client_cert chain presented w).0 ≡ verified
    → IsAdmitted w.db chain presented
unfolding verify_client_cert
verify_client_cert-IsAdmitted false presented w h = absurd (ground (arith, h))
verify_client_cert-IsAdmitted true none w h = absurd (ground (arith, h))
verify_client_cert-IsAdmitted true (some serial) w h = serial-IsAdmitted serial w.faults w.db h

device-Verified :
    (db : Db) (serial : String) (device : Device) (o : Option Device)
    → o ≡ some device
    → is_some device.revoked_at ≡ false
    → handshake_of o ≡ verified
device-Verified db serial device o known active = rw (known, active) refl

-- Where no statement fails, the handshake succeeds exactly if the chain is trusted and the
-- certificate is the one on file for a registered device that is not revoked.
pub verify_client_cert_iff :
    (chain : Bool) (presented : Option String) (db : Db)
    → ((verify_client_cert chain presented (record { db = db; faults = [] })).0 ≡ verified)
      ↔ IsAdmitted db chain presented
unfolding verify_client_cert connect find_device_by_cert_serial
verify_client_cert_iff chain presented db = (
  verify_client_cert-IsAdmitted chain presented (record { db = db; faults = [] }),
  λ a. rw (a.trusted, a.named) (device-Verified db a.serial a.device _ a.known a.not_revoked),
)

revoked_handshake :
    (chain : Bool) (id : ℕ) (serial : String) (device : Device) (w : World)
    → IsRevoked id w.db
    → find_by (has_serial serial) w.db.devices ≡ some device
    → device.id ≡ id
    → (verify_client_cert chain (some serial) w).0 ≢ verified
revoked_handshake chain id serial device w revoked known same h =
    let admitted = verify_client_cert-IsAdmitted chain (some serial) w h in
    let presented : serial ≡ admitted.serial = some_injective admitted.named in
    let found : some admitted.device ≡ some device =
      sym admitted.known ∙ ap (λ s. find_by (has_serial s) w.db.devices) (sym presented) ∙ known in
    let one : admitted.device ≡ device = some_injective found in
    let off = revoked_row id w.db (has_serial serial) device revoked known same in
    let on : is_some device.revoked_at ≡ false =
      subst (λ d. is_some d.revoked_at ≡ false) one admitted.not_revoked in
    absurd (ground (arith, on, off))

-- Once `revoke_device` has succeeded for a device of a reached state, no handshake with the
-- certificate on file for it succeeds, whatever the verdict on its chain, after any further
-- requests, commands and failing statements.
pub verify_client_cert_final :
    (faults : List Bool) (w w' : World) (now id : ℕ) (device device' : Device) (chain : Bool)
    (serial : String)
    → Steps (record { db = empty_db; faults = faults }) w
    → find_by (is_device id) w.db.devices ≡ some device
    → (revoke_device now id w).0 ≡ ok tt
    → Steps (revoke_device now id w).1 w'
    → find_by (has_serial serial) w'.db.devices ≡ some device'
    → device'.id ≡ id
    → (verify_client_cert chain (some serial) w').0 ≢ verified
verify_client_cert_final faults w w' now id device device' chain serial before there done after
      known same =
    let revoked =
      revoke_device-IsRevoked now id device w.faults w.db (reached-IsWellFormed faults w before)
        there done in
    revoked_handshake chain id serial device' w'
      (steps_kept (IsRevoked id) (IsRevoked-IsKept id) _ w' after revoked) known same
