-- ===== src/Tester/Callbacks.antt =====
-- The callbacks of src/mqtt/mqttest.cc that libmosquitto calls, and the messages that it sends.
pub mod Limit
use ktkkl.Base.{
  ℕ, zero, suc, ◌+◌, Bool, true, false, ◌&&◌, not, List, [], ◌∷◌, ◌++◌, map, Option, none, some,
  Bytes, codes, ◌==◌, if◌then◌else◌,
}
use ktkkl.Base.Int.{ℤ, pos, negsuc, ltb_ℤ}
use ktkkl.Libc.{show_signed}
use ktkkl.Client.Config.{Config, CStr, text}
use ktkkl.Tester.Dump.{Protocol, Message, Line, dump_mqtt, Publish, send_mqtt_msg}

-- process_messages, msg_count, g_connected and g_last_mid_sent.
pub record Globals : Type 0 where
  pub process_messages : Bool
  pub msg_count : ℕ
  pub connected : Bool
  pub last_mid_sent : ℤ

abbrev pub first_globals : Globals
first_globals = record {
  process_messages = true;
  msg_count = 0;
  connected = false;
  last_mid_sent = pos 0;
}

-- What a callback does besides: lines on the error output, and calls of libmosquitto.
pub data Action : Type 0 where
  print : Line → Action
  print_connack : ℤ → Action
  print_auth_error print_refused : Action
  print_error : ℤ → Action
  print_disconnected : Action
  print_text : Bytes → Action
  subscribe : Bytes → ℤ → Action
  publish : Publish → Action
  disconnect : Action

-- cfg->msg_count == msg_count
abbrev pub reached : ℤ → ℕ → Bool
reached (pos n) count = n == count
reached (negsuc n) count = false

-- `if(cfg->msg_count>0){...}`
unfoldable pub count_message : Config → Globals → Globals × List Action
count_message cfg g =
    if ltb_ℤ (pos 0) cfg.msg_count
    then (let count = g.msg_count + 1 in
        if reached cfg.msg_count count
        then (record g { msg_count = count; process_messages = false }, disconnect ∷ [])
        else (record g { msg_count = count }, []))
    else (g, [])

-- mosquitto_topic_matches_sub is a parameter: the result that it stores, or `none` where it returns an
-- error and stores none. `stale` is what the local `res` holds before the first call.
module _ (matches : Bytes → Bytes → Option Bool) (proto : Protocol) (stale : Bool) where
  abbrev stored : Option Bool → Bool → Bool
  stored none res = res
  stored (some b) res = b

  -- The loop over filter_outs: true where it returns from the callback.
  unfoldable pub filtered : List CStr → Bytes → Bool → Bool
  filtered [] topic res = false
  filtered (f ∷ fs) topic res =
      let res' = stored (matches (text f) topic) res in
      let rest = filtered fs topic res' in if res' then true else rest

  -- The message is not dropped by its retain flag or by a filter.
  unfoldable pub passes : Config → Message → Bool
  passes cfg m = not (m.retain && cfg.no_retain) && not (filtered cfg.filter_outs m.topic stale)

  unfoldable pub my_message_callback : Config → Globals → Message → Globals × List Action
  my_message_callback cfg g m =
      if not g.process_messages
      then (g, [])
      else if m.retain && cfg.no_retain
      then (g, [])
      else if filtered cfg.filter_outs m.topic stale
      then (g, [])
      else (let r = count_message cfg g in (r.0, map print (dump_mqtt proto m) ++ r.1))

  -- One message after another.
  unfoldable pub receive_all : Config → Globals → List Message → Globals × List Action
  receive_all cfg g [] = (g, [])
  receive_all cfg g (m ∷ ms) =
      let r = my_message_callback cfg g m in
      let rest = receive_all cfg r.0 ms in (rest.0, r.1 ++ rest.1)

-- send_msg, with the number of LMT_SEARCH_NEARBY_USERS and the serialized message.
pub send_msg : ℕ → Bytes → Bytes → Publish
send_msg search_nearby_users body topic =
    send_mqtt_msg topic search_nearby_users 100_000_000_070_000_000 body

-- send_live_msg_game_state: `left` rounds of its loop from `id` on; a message differs by the clock.
pub send_game_states : ℕ → (ℕ → Bytes) → Bytes → ℕ → ℕ → List Publish
send_game_states game_live_state body topic zero id = []
send_game_states game_live_state body topic (suc left) id =
    send_mqtt_msg topic game_live_state id (body id)
    ∷ send_game_states game_live_state body topic left (id + 1)

pub send_live_msg_game_state : ℕ → (ℕ → Bytes) → Bytes → List Publish
unfolding send_game_states
send_live_msg_game_state game_live_state body topic =
    send_game_states game_live_state body topic 4 12_345_678_901_234_000

-- send_game_contact_msg sends its one message twice, under one id.
pub send_game_contact_msg : ℕ → Bytes → Bytes → List Publish
send_game_contact_msg game_contact_info body topic =
    send_mqtt_msg topic game_contact_info 100_000_000_050_000_000 body
    ∷ send_mqtt_msg topic game_contact_info 100_000_000_050_000_000 body
    ∷ []

-- The text of a pointer that may be null.
abbrev pub text_of : Option CStr → Option Bytes
text_of none = none
text_of (some s) = some (text s)

-- `send` is send_msg with its message, on a topic that may be null.
unfoldable pub my_connect_callback :
    (Option Bytes → Publish) → Config → Globals → ℤ → Globals × List Action
my_connect_callback send cfg g (pos zero) = (
  record g { connected = true },
  map (λ t. subscribe (text t) cfg.qos) cfg.topics ++ publish (send (text_of cfg.topic)) ∷ [],
)
my_connect_callback send cfg g result = (g, if cfg.quiet then [] else print_connack result ∷ [])

-- MOSQ_ERR_AUTH and MOSQ_ERR_CONN_REFUSED of mosquitto.h.
unfoldable pub my_disconnect_callback : ℤ → ℤ → Globals → ℤ → Globals × List Action
my_disconnect_callback err_auth err_conn_refused g rc = (
  record g { connected = false },
  (if same_code rc err_auth
        then print_auth_error
        else if same_code rc err_conn_refused
        then print_refused
        else print_error rc)
      ∷ print_disconnected
      ∷ [],
)
  where
    same_code : ℤ → ℤ → Bool
    same_code (pos a) (pos b) = a == b
    same_code (negsuc a) (negsuc b) = a == b
    same_code _ _ = false

unfoldable pub my_publish_callback : Globals → ℤ → Globals
my_publish_callback g mid = record g { last_mid_sent = mid }

-- `, %d` for each code but the first.
pub granted_codes : List ℤ → Bytes
granted_codes [] = []
granted_codes (q ∷ qs) = codes ", " ++ (show_signed q ++ granted_codes qs)

-- granted_qos[0] is `first`; it is read whatever qos_count is.
unfoldable pub my_subscribe_callback : Config → ℤ → ℤ → List ℤ → List Action
unfolding granted_codes
my_subscribe_callback cfg mid first others =
    if cfg.quiet
    then []
    else print_text (
        codes "Subscribed (mid: "
        ++ (show_signed mid
            ++ (codes "): " ++ (show_signed first ++ (granted_codes others ++ 10 ∷ [])))))
      ∷ []
