-- ===== src/Client/Library.antt =====
-- The calls of libmosquitto that src/mqtt/client_shared.cc and the main of src/mqtt/mqttest.cc make, and
-- how a program goes on after one.
use ktkkl.Base.{ℕ, Bool, List, ◌∷◌, Option}
use ktkkl.Base.Int.{ℤ}
use ktkkl.Client.Config.{CStr, Version}

-- The callbacks of a client.
pub data Callback : Type 0 where
  on_log on_subscribe on_connect on_message on_publish on_disconnect : Callback

-- One constructor for each function, with the arguments that come from the options. The handle is the
-- one of the program.
pub data Call : Type 0 where
  lib_init lib_cleanup : Call
  new : Option CStr → Bool → Call
  will_set : Option CStr → ℕ → Option CStr → ℤ → Bool → Call
  username_pw_set : Option CStr → Option CStr → Call
  tls_set : Option CStr → Option CStr → Option CStr → Option CStr → Call
  tls_insecure_set : Bool → Call
  tls_psk_set : Option CStr → Option CStr → Call
  tls_opts_set : ℕ → Option CStr → Option CStr → Call
  max_inflight_messages_set : ℕ → Call
  socks5_set : Option CStr → ℤ → Option CStr → Option CStr → Call
  opts_set_version : Version → Call
  callback_set : Callback → Call
  connect_srv : Option CStr → ℤ → Option CStr → Call
  connect_bind : Option CStr → ℤ → ℤ → Option CStr → Call
  loop_forever destroy : Call

-- The calls that were made, the first in front, and the value that is returned.
abbrev pub Ran : Type 0 → Type 0
Ran A = List Call × A

abbrev pub call : {A : Type 0} → Call → Ran A → Ran A
call c (log, a) = (c ∷ log, a)
