-- ===== src/Client/Setup.antt =====
-- client_opts_set and client_connect of src/mqtt/client_shared.cc.
pub mod Outcome
use ktkkl.Base.{
  ℕ, zero, suc, Bool, true, false, ◌&&◌, ◌||◌, List, [], ◌∷◌, Option, none, some, if◌then◌else◌,
}
use ktkkl.Base.Int.{ℤ, pos, negsuc, ltb_ℤ}
use ktkkl.Client.Config.{Config, CStr, Build}
use ktkkl.Client.Library.{
  Call, Ran, call, lib_cleanup, will_set, username_pw_set, tls_set, tls_insecure_set, tls_psk_set,
  tls_opts_set, max_inflight_messages_set, socks5_set, opts_set_version, connect_srv, connect_bind,
}
use ktkkl.Client.Load.{given}

-- A return code as a condition.
abbrev pub is_error : ℤ → Bool
is_error (pos zero) = false
is_error _ = true

-- `answer` is what the library returns for a call: no call is made twice in a run.
module _ (answer : Call → ℤ) where
  -- `if(asked && f(...)){ mosquitto_lib_cleanup(); return 1; }`, and the rest of the function.
  abbrev pub unless_failing : Bool → Call → Ran ℤ → Ran ℤ
  unless_failing asked c rest =
      if asked
      then call c (if is_error (answer c) then call lib_cleanup ([], pos 1) else rest)
      else rest

  -- The block under WITH_SOCKS, which returns the library's code.
  abbrev pub set_proxy : Bool → Call → Ran ℤ → Ran ℤ
  set_proxy asked c rest =
      if asked
      then call c (if is_error (answer c) then call lib_cleanup ([], answer c) else rest)
      else rest

  -- With WITH_SOCKS the code assigns to a `rc` that it does not declare; it is read as a local `int`.
  unfoldable pub client_opts_set : Build → Config → Ran ℤ
  client_opts_set b c =
      unless_failing (given c.will_topic)
        (will_set c.will_topic c.will_payloadlen c.will_payload c.will_qos c.will_retain)
        (unless_failing (given c.username) (username_pw_set c.username c.password) (
          unless_failing (b.tls && (given c.cafile || given c.capath))
            (tls_set c.cafile c.capath c.certfile c.keyfile)
            (unless_failing (b.tls && c.insecure) (tls_insecure_set true) (
              unless_failing ((b.tls && b.tls_psk) && given c.psk)
                (tls_psk_set c.psk c.psk_identity)
                (unless_failing (b.tls && (given c.tls_version || given c.ciphers))
                  (tls_opts_set 1 c.tls_version c.ciphers)
                  (call (max_inflight_messages_set c.max_inflight) (
                    set_proxy (b.socks && given c.socks5_host)
                      (socks5_set c.socks5_host c.socks5_port c.socks5_username c.socks5_password)
                      (call (opts_set_version c.protocol_version) ([], pos 0)))))))))

  abbrev pub connect_call : Build → Config → Call
  connect_call b c =
      if b.srv && c.use_srv
      then connect_srv c.host c.keepalive c.bind_address
      else connect_bind c.host c.port c.keepalive c.bind_address

  -- MOSQ_ERR_SUCCESS where the library returns no positive code; the messages are left out.
  unfoldable pub client_connect : Build → Config → Ran ℤ
  client_connect b c = call (connect_call b c) (
      let rc = answer (connect_call b c) in
      if ltb_ℤ (pos 0) rc then call lib_cleanup ([], rc) else ([], pos 0))
