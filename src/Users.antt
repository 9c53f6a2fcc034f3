-- ===== src/Users.antt =====
-- `UsersService.setActivationStatus` (apps/api/src/modules/users/users.service.ts): the activation of an
-- account. The caller's tenant id is a UUID, so that the client of the tenant is given.
pub mod Inactive
pub mod Requests
pub mod Deactivation
pub mod Roles
pub mod Creation
mod Tests
use edu_lanka.Prelude.{
  ℕ, String, Bool, true, false, not, Option, none, some, ◌&&◌, ◌||◌, leb, str_eq, if◌then◌else◌,
}
use edu_lanka.Http.{Result, ok, err, HttpError, Action, ◌>>=◌, ◌>>◌, return, throw, require}
use edu_lanka.Postgrest.{Reply, found, failed, Table}
use edu_lanka.Text.{Text, codes, to_lower, includes}
use edu_lanka.Uuid.{get_tenant_client}
use edu_lanka.User.{UserRole, role_eq, JwtPayload, is_admin, is_super_admin}
use edu_lanka.Redis.{Redis}
use edu_lanka.Sessions.{cache_user_active, revoke_all_user_refresh_tokens}

pub record UserRow : Type 0 where
  pub id : String
  pub tenant_id : String
  pub role : UserRole
  pub is_active : Bool
  pub deactivation_reason : Option String

pub record DeviceToken : Type 0 where
  pub id : String
  pub user_id : String
  pub is_active : Bool
  pub updated_at : ℕ

pub data InquiryStatus : Type 0 where
  pending resolved rejected : InquiryStatus

pub record Inquiry : Type 0 where
  pub id : String
  pub user_id : String
  pub status : InquiryStatus

-- What is appended to the stream of sync events for a deactivated user.
pub record Revocation : Type 0 where
  pub tenant_id : String
  pub user_id : String
  pub reason : String
  pub revoked_at : ℕ

-- The tables that are written, Redis, and the stream of events (the function `append_sync_event` of the
-- database), with the message of the error of the last request on `users`.
pub record UserStores : Type 1 where
  pub Users : Table UserRow
  pub Devices : Table DeviceToken
  pub Inquiries : Table Inquiry
  pub Cache : Redis
  pub Stream : Type 0
  pub append_sync_event : Revocation → Stream → Reply (Unit {0}) × Stream
  pub message : Users.Db → Text

-- The plan of a tenant, and how many of its students are active.
pub record Caps : Type 0 where
  pub plan_of : String → Reply (Option String)
  pub active_students : String → Reply ℕ

pub record School (D : UserStores) : Type 0 where
  pub users : D.Users.Db
  pub device_tokens : D.Devices.Db
  pub inquiries : D.Inquiries.Db
  pub redis : D.Cache.Db
  pub sync_events : D.Stream

abbrev pub is_user : String → UserRow → Bool
is_user id r = str_eq r.id id

-- The client of the caller's tenant; the platform's administrator uses that of all tenants.
abbrev pub sees : JwtPayload → UserRow → Bool
sees caller r = is_super_admin caller.role || str_eq r.tenant_id caller.tenant_id

abbrev pub visible_user : String → JwtPayload → UserRow → Bool
visible_user id caller r = is_user id r && sees caller r

abbrev pub is_pending : InquiryStatus → Bool
is_pending pending = true
is_pending _ = false

abbrev pub reason_or : Option String → String → String
reason_or none other = other
reason_or (some t) other = if str_eq t "" then other else t

abbrev pub reason_or_null : Option String → Option String
reason_or_null none = none
reason_or_null (some t) = if str_eq t "" then none else some t

-- The columns that the update sets.
abbrev pub activated : Bool → Option String → UserRow → UserRow
activated active reason r = record r {
  is_active = active;
  deactivation_reason = if active then none else reason_or_null reason;
}

abbrev pub is_community : Reply (Option String) → Bool
is_community (found (some p)) = str_eq p "COMMUNITY"
is_community _ = false

-- The reply of `users` that `AuthService.isUserActive` reads.
abbrev pub active_reply : Reply (Option UserRow) → Reply (Option (Option Bool))
active_reply failed = failed
active_reply (found none) = found none
active_reply (found (some r)) = found (some (some r.is_active))

abbrev pub is_full : Reply ℕ → Bool
is_full failed = false
is_full (found n) = leb 75 n

-- The messages of the database's own limit.
abbrev pub is_cap_message : Text → Bool
is_cap_message t =
    includes (to_lower t) (codes "limit exceeded")
    || includes (to_lower t) (codes "cap exceeded")
    || includes (to_lower t) (codes "capped at")

module _ (D : UserStores) (reg : Caps) where
  -- An inactive student of a community school comes back only under the cap.
  abbrev pub exceeds_cap : UserRow → Bool
  exceeds_cap r =
      not r.is_active
      && role_eq r.role UserRole.student
      && is_community (reg.plan_of r.tenant_id)
      && is_full (reg.active_students r.tenant_id)

  abbrev pub may_return : Reply (Option UserRow) → Action (School D) (Unit {0})
  may_return (found (some r)) = require (not (exceeds_cap r)) HttpError.forbidden
  may_return _ = throw HttpError.not_found

  abbrev pub check_cap : String → Bool → JwtPayload → Action (School D) (Unit {0})
  check_cap id false caller s = return tt s
  check_cap id true caller s = may_return (D.Users.maybe_single (visible_user id caller) s.users) s

  abbrev pub activation_updated :
      School D → Reply (Option UserRow) × D.Users.Db → Result UserRow × School D
  activation_updated s (found (some r), db) = (ok r, record s { users = db })
  activation_updated s (found none, db) = (err HttpError.not_found, record s { users = db })
  activation_updated s (failed, db) = (
    err (if is_cap_message (D.message db) then HttpError.forbidden else HttpError.internal_error),
    record s { users = db },
  )

  abbrev pub write_activation :
      String → Bool → JwtPayload → Option String → Action (School D) UserRow
  write_activation id active caller reason s =
      activation_updated s
        (D.Users.update_maybe (visible_user id caller) (activated active reason) s.users)

  -- The device tokens of a deactivated user, and the event for the devices; failures are dropped.
  abbrev pub silenced : ℕ → DeviceToken → DeviceToken
  silenced now d = record d { is_active = false; updated_at = now }

  abbrev pub revocation : String → Option String → ℕ → UserRow → Revocation
  revocation id reason now r = record {
    tenant_id = r.tenant_id;
    user_id = id;
    reason = reason_or reason "ACCOUNT_DEACTIVATED";
    revoked_at = now;
  }

  abbrev pub signed_out : String → Option String → ℕ → UserRow → School D → School D
  signed_out id reason now r s = record s {
    redis = revoke_all_user_refresh_tokens D.Cache id now s.redis;
    device_tokens = (D.Devices.update (λ d. str_eq d.user_id id) (silenced now) s.device_tokens).1;
    sync_events = (D.append_sync_event (revocation id reason now r) s.sync_events).1;
  }

  abbrev pub inquiries_resolved : String → School D → School D
  inquiries_resolved id s = record s {
    inquiries =
        (D.Inquiries.update (λ q. str_eq q.user_id id && is_pending q.status)
          (λ q. record q { status = resolved }) s.inquiries).1;
  }

  abbrev pub cached : String → Bool → ℕ → School D → School D
  cached id active now s = record s { redis = cache_user_active D.Cache id active 60 now s.redis }

  abbrev pub activation_concluded :
      String → Bool → Option String → ℕ → UserRow → School D → School D
  activation_concluded id false reason now r s = signed_out id reason now r (cached id false now s)
  activation_concluded id true reason now r s = inquiries_resolved id (cached id true now s)

  unfoldable pub set_activation_status :
      String → Bool → JwtPayload → Option String → ℕ → Action (School D) UserRow
  set_activation_status id active caller reason now =
      require (is_admin caller.role) HttpError.forbidden
      >> (get_tenant_client caller.tenant_id
          >> (check_cap id active caller
              >> (write_activation id active caller reason >>= λ r s.
                  (ok r, activation_concluded id active reason now r s))))
