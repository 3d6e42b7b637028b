-- ===== src/Client/Config.antt =====
-- struct mosq_config of src/mqtt/client_shared.h, and init_config and client_config_cleanup of
-- src/mqtt/client_shared.cc.
use ktkkl.Base.{ℕ, Bool, true, false, List, [], ◌∷◌, ◌++◌, map, Option, none, some, Bytes}
use ktkkl.Base.Int.{ℤ, pos}

-- A `char *` that is not null: the text of a literal of the program, or a block of the heap, which
-- the allocator numbers.
pub data CStr : Type 0 where
  literal : Bytes → CStr
  heap : ℕ → Bytes → CStr

abbrev pub text : CStr → Bytes
text (literal s) = s
text (heap a s) = s

-- CLIENT_PUB and CLIENT_SUB
pub data Role : Type 0 where
  client_pub client_sub : Role

-- MSGMODE_NONE to MSGMODE_NULL
pub data MsgMode : Type 0 where
  mode_none mode_cmd mode_stdin_line mode_stdin_file mode_file mode_null : MsgMode

-- MQTT_PROTOCOL_V31 and MQTT_PROTOCOL_V311
pub data Version : Type 0 where
  v31 v311 : Version

-- WITH_TLS, WITH_TLS_PSK, WITH_SOCKS and WITH_SRV
pub record Build : Type 0 where
  pub tls : Bool
  pub tls_psk : Bool
  pub socks : Bool
  pub srv : Bool

-- A null pointer is `none`. The counts of the two arrays are the lengths of the lists. A field that a
-- build leaves out keeps its first value. `next` is the number of the allocator's next block.
pub record Config : Type 0 where
  pub id : Option CStr
  pub id_prefix : Option CStr
  pub protocol_version : Version
  pub keepalive : ℤ
  pub host : Option CStr
  pub port : ℤ
  pub qos : ℤ
  pub retain : Bool
  pub pub_mode : MsgMode
  pub file_input : Option CStr
  pub message : Option CStr
  pub msglen : ℕ
  pub topic : Option CStr
  pub bind_address : Option CStr
  pub use_srv : Bool
  pub debug : Bool
  pub quiet : Bool
  pub max_inflight : ℕ
  pub username : Option CStr
  pub password : Option CStr
  pub will_topic : Option CStr
  pub will_payload : Option CStr
  pub will_payloadlen : ℕ
  pub will_qos : ℤ
  pub will_retain : Bool
  pub cafile : Option CStr
  pub capath : Option CStr
  pub certfile : Option CStr
  pub keyfile : Option CStr
  pub ciphers : Option CStr
  pub insecure : Bool
  pub tls_version : Option CStr
  pub psk : Option CStr
  pub psk_identity : Option CStr
  pub clean_session : Bool
  pub topics : List CStr
  pub no_retain : Bool
  pub filter_outs : List CStr
  pub verbose : Bool
  pub eol : Bool
  pub msg_count : ℤ
  pub socks5_host : Option CStr
  pub socks5_port : ℤ
  pub socks5_username : Option CStr
  pub socks5_password : Option CStr
  pub next : ℕ

-- memset to zero, then six fields.
unfoldable pub init_config : Config
init_config = record {
  id = none;
  id_prefix = none;
  protocol_version = v31;
  keepalive = pos 60;
  host = none;
  port = pos 1883;
  qos = pos 0;
  retain = false;
  pub_mode = mode_none;
  file_input = none;
  message = none;
  msglen = 0;
  topic = none;
  bind_address = none;
  use_srv = false;
  debug = false;
  quiet = false;
  max_inflight = 20;
  username = none;
  password = none;
  will_topic = none;
  will_payload = none;
  will_payloadlen = 0;
  will_qos = pos 0;
  will_retain = false;
  cafile = none;
  capath = none;
  certfile = none;
  keyfile = none;
  ciphers = none;
  insecure = false;
  tls_version = none;
  psk = none;
  psk_identity = none;
  clean_session = true;
  topics = [];
  no_retain = false;
  filter_outs = [];
  verbose = false;
  eol = true;
  msg_count = pos 0;
  socks5_host = none;
  socks5_port = pos 0;
  socks5_username = none;
  socks5_password = none;
  next = 0;
}

-- strdup(s): the next block, with a copy of the text.
abbrev pub strdup : Config → Bytes → CStr
strdup cfg s = heap cfg.next s

-- A pointer that is passed to free: one to a text, or the one to an array of such pointers.
pub data Freed : Type 0 where
  chars : Option CStr → Freed
  array : List CStr → Freed

-- `if(ptrs){ for(...) free(ptrs[i]); free(ptrs); }`: the array is null while its count is 0.
abbrev pub free_all : List CStr → List Freed
free_all [] = []
free_all (p ∷ ps) = map (λ q. chars (some q)) (p ∷ ps) ++ array (p ∷ ps) ∷ []

-- What client_config_cleanup passes to free, in its order; free(NULL) does nothing. The fields of a
-- build that leaves them out are null.
abbrev pub freed : Config → List Freed
freed c =
    map chars (
      c.id ∷ c.id_prefix ∷ c.host ∷ c.file_input ∷ c.message ∷ c.topic ∷ c.bind_address ∷ c.username
      ∷ c.password ∷ c.will_topic ∷ c.will_payload ∷ c.cafile ∷ c.capath ∷ c.certfile ∷ c.keyfile
      ∷ c.ciphers ∷ c.tls_version ∷ c.psk ∷ c.psk_identity ∷ [])
    ++ (free_all c.topics
        ++ (free_all c.filter_outs
            ++ chars c.socks5_host ∷ chars c.socks5_username ∷ chars c.socks5_password ∷ []))
