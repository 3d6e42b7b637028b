-- ===== src/Tester/Dump.antt =====
-- dump_im_msg, dump_mqtt and send_mqtt_msg of src/mqtt/mqttest.cc. What they print is a list of lines.
pub mod Delivery
use ktkkl.Base.{
  ℕ, ◌+◌, Bool, true, false, ◌||◌, ◌&&◌, not, List, [], ◌∷◌, ◌++◌, Option, none, some, Bytes, codes,
  ltb, ◌==◌, if◌then◌else◌, length, drop,
}
use ktkkl.Libc.{same_prefix}
use ktkkl.Tester.Wire.{read_type, read_id, frame}

-- The protobuf messages that the client decodes.
pub data Kind : Type 0 where
  add_contact share_soc_id feedback : Kind
  service_response nearby_user_update game_contact_info game_live_state live_connect_notify
        server_status :
      Kind

-- The generated code of messaging.proto: the numbers of the enumerations, and for each kind the text
-- of a decoded body, `none` where ParseFromArray fails.
pub record Protocol : Type 0 where
  pub im_add_contact : ℕ
  pub im_share_soc_id : ℕ
  pub im_feedback_msg : ℕ
  pub lmt_system_notification : ℕ
  pub lmt_service_response : ℕ
  pub lmt_nearby_user_update : ℕ
  pub lmt_game_contact_info : ℕ
  pub lmt_game_live_state : ℕ
  pub lmt_live_connect_notify : ℕ
  pub lmt_server_status : ℕ
  pub parse : Kind → Bytes → Option Bytes

-- struct mosquitto_message; `payloadlen` is the length of the payload.
pub record Message : Type 0 where
  pub topic : Bytes
  pub payload : Bytes
  pub retain : Bool

pub data Line : Type 0 where
  size_wrong : ℕ → Line
  -- The head of a message: its topic, type, id and length; behind `recv: ` for the live types.
  received : Bytes → ℕ → ℕ → ℕ → Line
  received_live : Bytes → ℕ → ℕ → ℕ → Line
  notification : ℕ → Line
  decoded : Kind → Bytes → Line
  decode_error : ℕ → Line
  unknown_type : ℕ → ℕ → Line
  ignoring : Bytes → Line

module _ (proto : Protocol) where
  -- One case of a switch: ParseFromArray(p + 10, payloadlen - 10).
  pub dump_body : Kind → ℕ → Bytes → Line
  dump_body kind type p = elim (proto.parse kind (drop 10 p)) [
    | none ↦ decode_error type
    | some t ↦ decoded kind t
  ]

  pub dump_im_switch : ℕ → ℕ → Bytes → Line
  unfolding dump_body
  dump_im_switch type id p =
      if type == proto.im_add_contact
      then dump_body add_contact type p
      else if type == proto.im_share_soc_id
      then dump_body share_soc_id type p
      else if type == proto.im_feedback_msg
      then dump_body feedback type p
      else unknown_type type id

  pub dump_im_msg : Message → List Line
  dump_im_msg m =
      if ltb (length m.payload) 10
      then size_wrong (length m.payload) ∷ []
      else (let type = read_type m.payload in
          let id = read_id m.payload in
          received m.topic type id (length m.payload) ∷ dump_im_switch type id m.payload ∷ [])

  pub dump_live_switch : ℕ → ℕ → Bytes → Line
  unfolding dump_body
  dump_live_switch type id p =
      if type == proto.lmt_system_notification
      then notification id
      else if type == proto.lmt_service_response
      then dump_body service_response type p
      else if type == proto.lmt_nearby_user_update
      then dump_body nearby_user_update type p
      else if type == proto.lmt_game_contact_info
      then dump_body game_contact_info type p
      else if type == proto.lmt_game_live_state
      then dump_body game_live_state type p
      else if type == proto.lmt_live_connect_notify
      then dump_body live_connect_notify type p
      else if type == proto.lmt_server_status
      then dump_body server_status type p
      else unknown_type type id

  pub dump_mqtt : Message → List Line
  dump_mqtt m =
      if same_prefix 8 (codes "im/user/") m.topic
      then dump_im_msg m
      else if not (same_prefix 11 (codes "codein/live") m.topic)
          && not (same_prefix 6 (codes "svc/os") m.topic)
      then ignoring m.topic ∷ []
      else if ltb (length m.payload) 10
      then size_wrong (length m.payload) ∷ []
      else (let type = read_type m.payload in
          let id = read_id m.payload in
          received_live m.topic type id (length m.payload)
          ∷ dump_live_switch type id m.payload
          ∷ [])

-- The call of mosquitto_publish that send_mqtt_msg makes: topic, payload, qos and retain.
pub record Publish : Type 0 where
  pub topic : Bytes
  pub payload : Bytes
  pub qos : ℕ
  pub retain : Bool

pub send_mqtt_msg : Bytes → ℕ → ℕ → Bytes → Publish
send_mqtt_msg topic type id body = record {
  topic = topic;
  payload = frame type id body;
  qos = 1;
  retain = false;
}
