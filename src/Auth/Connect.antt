-- ===== src/Auth/Connect.antt =====
-- mosquitto_auth_connect_check of src/mqtt/auth_plugin.cc and the other callbacks that only decide.
pub mod Service
pub mod Admission
pub mod Series
use ktkkl.Base.{
  ℕ, zero, Bool, true, false, ◌&&◌, Option, none, some, Bytes, codes, ◌==◌, if◌then◌else◌,
}
use ktkkl.Base.Int.{ℤ, pos, negsuc, signed64, leb_ℤ}
use ktkkl.Libc.{same, same_prefix}
use ktkkl.Auth.Uid.{minus_one, get_uid}
use ktkkl.Auth.Services.{Services, M, pure, ◌>>=◌, ◌>>◌}
use ktkkl.Auth.Session.{check_token}
use ktkkl.Auth.Status.{on_client_online, update_client_status}

-- The codes of mosquitto.h that the plugin returns.
pub data MosqErr : Type 0 where
  success auth acl_denied conn_pending : MosqErr

-- ANON_UID_BASE
abbrev pub anon_uid_base : ℕ
anon_uid_base = 9_223_372_000_000_000_000

-- The names that are no user ids, and their passwords.
pub service_login : Bytes → Bytes → MosqErr
service_login username password =
    if same username (codes "codein") && same password (codes "codein.tv")
    then success
    else if same_prefix 10 username (codes "codein_os_")
    then (if same_prefix 12 username (codes "codein_os_js")
        then (if same password (codes "js.codein.tv") then success else auth)
        else if same password (codes "os.cOdein.tv")
        then success
        else auth)
    else auth

module _ {W : Type 0} (sv : Services W) where
  -- The session's part, for a user name that spells `uid`.
  pub member_login : ℕ → ℕ → Bytes → Bytes → ℕ → M W MosqErr
  member_login fuel uid password clientid sd = do
    rc ← check_token sv uid password
    elim rc [
      | pos zero ↦ do
        update_client_status sv uid password (some clientid) sd
        on_client_online sv fuel uid password clientid sd
        pure success
      | _ ↦ pure auth
    ]

  pub user_login : ℕ → ℕ → Bytes → Bytes → ℕ → M W MosqErr
  user_login fuel uid password clientid sd =
      if leb_ℤ (pos anon_uid_base) (signed64 uid) && same password (codes "codein.tv")
      then (do on_client_online sv fuel uid password clientid sd; pure success)
      else member_login fuel uid password clientid sd

  -- The arguments are pointers that may be null.
  pub connect_check : ℕ → Option Bytes → Option Bytes → Option Bytes → ℕ → M W MosqErr
  unfolding user_login member_login service_login
  connect_check fuel (some username) (some password) (some clientid) sd =
      let uid = get_uid username in
      if uid == minus_one
      then pure (service_login username password)
      else user_login fuel uid password clientid sd
  connect_check fuel _ _ _ sd = pure auth

-- mosquitto_auth_unpwd_check
pub unpwd_check : Option Bytes → Option Bytes → MosqErr
unpwd_check (some username) (some password) = success
unpwd_check _ _ = auth

-- MOSQ_ACL_READ and the other kinds of access
pub data Access : Type 0 where
  none_access read write : Access

abbrev is_read : Access → Bool
is_read read = true
is_read _ = false

-- mosquitto_auth_acl_check: what the first test sets is set again below it.
pub acl_check : Bytes → Access → MosqErr
acl_check username access =
    let rc = if same username (codes "readonly") && is_read access then success else acl_denied in
    let rc' = success in rc'

-- mosquitto_auth_psk_key_get
pub psk_key_get : MosqErr
psk_key_get = auth
