-- ===== src/Client/Ident.antt =====
-- client_id_generate of src/mqtt/client_shared.cc.
pub mod Limit
use ktkkl.Base.{
  ℕ, suc, Bool, true, false, ◌+◌, List, [], ◌∷◌, ◌++◌, Option, none, some, ◌≡◌, refl, Bytes, codes,
  length, take, ltb, if◌then◌else◌,
}
use ktkkl.Base.Int.{ℤ, pos}
use ktkkl.Libc.{show, bounded}
use ktkkl.Client.Library.{Call, Ran, call, lib_cleanup}
use ktkkl.Client.Config.{Config, CStr, heap, text}

-- MOSQ_MQTT_ID_MAX_LENGTH of mosquitto.h
abbrev pub mqtt_id_max_length : ℕ
mqtt_id_max_length = 23

-- gethostname into a buffer of 256 bytes whose last byte is then cleared.
abbrev pub host_buffer : Bytes → Bytes
host_buffer name = take 255 name

unfoldable pub prefixed : Bytes → ℕ → Bytes
prefixed prefix pid = bounded (length prefix + 10) (prefix ++ show pid)

-- The text printed into a block of strlen(id_base) + 10 + strlen(hostname) bytes.
unfoldable pub described : Bytes → ℕ → Bytes → Bytes
described id_base pid hostname =
    bounded (length id_base + 10 + length hostname)
      (id_base ++ b'-' ∷ (show pid ++ b'-' ∷ hostname))

-- `if(strlen(id) > MAX) id[MAX] = 0`
unfoldable pub cut : Bytes → Bytes
cut id = if ltb mqtt_id_max_length (length id) then take mqtt_id_max_length id else id

abbrev pub with_id : Config → Bytes → Config
with_id cfg id = record cfg { id = some (heap cfg.next id); next = suc cfg.next }

-- A malloc that fails: the library is cleaned up and 1 is returned, with the id null.
abbrev out_of_memory : Config → Ran (ℤ × Config)
out_of_memory cfg = call lib_cleanup ([], (pos 1, record cfg { id = none }))

-- The return code and the configuration. `memory` is whether malloc succeeds, `pid` is getpid() and
-- `name` is what gethostname stores.
unfoldable pub client_id_generate : Bool → ℕ → Bytes → Bytes → Config → Ran (ℤ × Config)
unfolding prefixed described cut
client_id_generate memory pid name id_base cfg = elim cfg.id_prefix [
  | some prefix ↦
      if memory then ([], (pos 0, with_id cfg (prefixed (text prefix) pid))) else out_of_memory cfg
  | none ↦ elim cfg.id [
    | some id ↦ ([], (pos 0, cfg))
    | none ↦
        if memory
        then ([], (pos 0, with_id cfg (cut (described id_base pid (host_buffer name)))))
        else out_of_memory cfg
  ]
]
