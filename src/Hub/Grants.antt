-- ===== src/Hub/Grants.antt =====
-- control_plane/grants.rs: the device grants of RFC 8628. What `/dev/urandom` gives is an argument,
-- `none` where it cannot be read.
use wkp.Base.{
  ℕ, zero, suc, ◌+◌, ◌-◌, ◌/◌, ◌%◌, String, Bool, not, ◌||◌, Option, none, some, List, [], ◌∷◌,
  ◌++◌, map, ltb, leb, ◌==◌, if◌then◌else◌, take, drop, is_some,
}
use wkp.Str.{Text, codes, text_eq}
use wkp.Hub.Store.{
  Device, DeviceGrant, postgres, io, ok, err, Action, statement, query, raise, pure, ◌>>=◌, find_by,
  update_where,
}
use wkp.Hub.Control.{is_tenant, find_device_by_id, register_device}

-- Ten minutes
abbrev pub grant_ttl : ℕ
grant_ttl = 600

abbrev pub poll_interval_seconds : ℕ
poll_interval_seconds = 5

unfoldable pub is_grant_expired : ℕ → DeviceGrant → Bool
is_grant_expired now g = leb g.expires_at now

-- `{b:02x}` of each byte
abbrev hex_digit : ℕ → ℕ
hex_digit d = if ltb d 10 then b'0' + d else b'a' + (d - 10)

unfoldable pub hex : List ℕ → Text
hex [] = []
hex (b ∷ bytes) = hex_digit (b / 16) ∷ hex_digit (b % 16) ∷ hex bytes

abbrev pub user_code_alphabet : Text
user_code_alphabet = codes "ABCDEFGHJKMNPQRSTUVWXYZ23456789"

abbrev pub char_at : Text → ℕ → ℕ
char_at [] n = 0
char_at (c ∷ cs) zero = c
char_at (c ∷ cs) (suc n) = char_at cs n

abbrev pub code_char : ℕ → ℕ
code_char b = char_at user_code_alphabet (b % 31)

unfoldable pub user_code_of : List ℕ → Text
user_code_of raw = take 4 (map code_char raw) ++ b'-' ∷ take 4 (drop 4 (map code_char raw))

-- The 32 bytes of the device code, and the 8 bytes of the user code.
pub record Random : Type 0 where
  pub device_bytes : List ℕ
  pub user_bytes : List ℕ

abbrev pub has_device_code : Text → DeviceGrant → Bool
has_device_code code g = text_eq g.device_code code

abbrev pub has_user_code : Text → DeviceGrant → Bool
has_user_code code g = text_eq g.user_code code

abbrev pub is_grant : ℕ → DeviceGrant → Bool
is_grant id g = g.id == id

abbrev pub new_grant : ℕ → ℕ → ℕ → String → Random → DeviceGrant
new_grant now id tenant_id csr_pem r = record {
  id = id;
  tenant_id = tenant_id;
  device_code = hex r.device_bytes;
  user_code = user_code_of r.user_bytes;
  csr_pem = csr_pem;
  expires_at = now + grant_ttl;
  approved_device_id = none;
}

unfoldable pub insert_grant : ℕ → ℕ → String → Random → Action DeviceGrant
unfolding hex user_code_of
insert_grant now tenant_id csr_pem r = statement λ db.
    let row = new_grant now db.next_grant tenant_id csr_pem r in
    let db' = record db { next_grant = db.next_grant + 1 } in
    if is_some (find_by (has_device_code row.device_code) db.device_grants)
      || is_some (find_by (has_user_code row.user_code) db.device_grants)
      || not (is_some (find_by (is_tenant tenant_id) db.tenants))
    then (err postgres, db')
    else (ok row, record db' { device_grants = row ∷ db.device_grants })

unfoldable pub create_device_grant : ℕ → ℕ → String → Option Random → Action DeviceGrant
unfolding insert_grant
create_device_grant now tenant_id csr_pem none = raise io
create_device_grant now tenant_id csr_pem (some r) = insert_grant now tenant_id csr_pem r

unfoldable pub find_grant_by_device_code : Text → Action (Option DeviceGrant)
find_grant_by_device_code code = query λ db. find_by (has_device_code code) db.device_grants

unfoldable pub find_grant_by_user_code : Text → Action (Option DeviceGrant)
find_grant_by_user_code code = query λ db. find_by (has_user_code code) db.device_grants

-- `UPDATE device_grants SET approved_device_id WHERE id`
unfoldable pub set_approved : ℕ → ℕ → Action Unit
set_approved device_id grant_id = statement λ db. (
  ok tt,
  record db {
    device_grants =
        update_where (is_grant grant_id) (λ g. record g { approved_device_id = some device_id })
          db.device_grants;
  },
)

abbrev pub approved_with : DeviceGrant → Device → Action Device
unfolding set_approved
approved_with grant device = do _ ← set_approved device.id grant.id; pure device

-- Two statements, in no transaction.
unfoldable pub register_approved : ℕ → DeviceGrant → String → Action Device
unfolding register_device set_approved
register_approved now grant public_key = do
  device ← register_device now grant.tenant_id public_key
  approved_with grant device

abbrev pub approved_or : ℕ → DeviceGrant → String → Option Device → Action Device
approved_or now grant public_key none = register_approved now grant public_key
approved_or now grant public_key (some device) = pure device

abbrev pub approve_from : ℕ → DeviceGrant → String → Option ℕ → Action Device
approve_from now grant public_key none = register_approved now grant public_key
approve_from now grant public_key (some device_id) = do
  found ← find_device_by_id device_id
  approved_or now grant public_key found

unfoldable pub approve_grant : ℕ → DeviceGrant → String → Action Device
unfolding register_approved find_device_by_id
approve_grant now grant public_key = approve_from now grant public_key grant.approved_device_id
