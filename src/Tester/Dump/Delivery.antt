-- ===== src/Tester/Dump/Delivery.antt =====
-- What send_mqtt_msg publishes is what dump_mqtt shows.
use mathlib.Core.Path.{subst, sym}
use ktkkl.Base.{
  if◌then◌else◌, Bool, ℕ, ◌+◌, ◌<◌, ◌^◌, List, [], ◌∷◌, ◌++◌, Option, none, some, ◌≡◌, ◌≢◌, ap,
  true, false, not, ◌&&◌, ltb, ◌⊎◌, inl, inr, arith, Bytes, codes, All, length,
}
use ktkkl.Libc.{same_prefix}
use ktkkl.Tester.Wire.{frame}
use ktkkl.Tester.Wire.RoundTrip.{read_type-frame, read_id-frame, frame_body}
use ktkkl.Tester.Dump.{
  Kind, add_contact, share_soc_id, feedback, service_response, nearby_user_update,
  game_contact_info, game_live_state, live_connect_notify, server_status, Protocol, Message, Line,
  received, received_live, decoded, dump_body, dump_im_switch, dump_im_msg, dump_live_switch,
  dump_mqtt, Publish, send_mqtt_msg,
}

-- The case labels of a switch are pairwise distinct, or it does not compile.
abbrev pub Apart : List ℕ → Type 0
Apart [] = Unit
Apart (x ∷ xs) = All (λ y. x ≢ y) xs × Apart xs

module _ (proto : Protocol) where
  abbrev pub im_labels : List ℕ
  im_labels = proto.im_add_contact ∷ proto.im_share_soc_id ∷ proto.im_feedback_msg ∷ []

  abbrev pub live_labels : List ℕ
  live_labels =
      proto.lmt_system_notification ∷ proto.lmt_service_response ∷ proto.lmt_nearby_user_update
      ∷ proto.lmt_game_contact_info ∷ proto.lmt_game_live_state ∷ proto.lmt_live_connect_notify
      ∷ proto.lmt_server_status ∷ []

  -- The number that stands for a kind in each switch.
  abbrev pub im_number : Kind → Option ℕ
  im_number add_contact = some proto.im_add_contact
  im_number share_soc_id = some proto.im_share_soc_id
  im_number feedback = some proto.im_feedback_msg
  im_number _ = none

  abbrev pub live_number : Kind → Option ℕ
  live_number service_response = some proto.lmt_service_response
  live_number nearby_user_update = some proto.lmt_nearby_user_update
  live_number game_contact_info = some proto.lmt_game_contact_info
  live_number game_live_state = some proto.lmt_game_live_state
  live_number live_connect_notify = some proto.lmt_live_connect_notify
  live_number server_status = some proto.lmt_server_status
  live_number _ = none

  -- The switch that dump_mqtt comes to by the topic knows the kind under this number.
  pub data Carries (topic : Bytes) (k : Kind) (n : ℕ) : Type 0 where
    im : (r : Bytes) → topic ≡ codes "im/user/" ++ r → im_number k ≡ some n → Carries topic k n
    live :
        (r : Bytes) → topic ≡ codes "codein/live" ++ r → live_number k ≡ some n → Carries topic k n
    svc : (r : Bytes) → topic ≡ codes "svc/os" ++ r → live_number k ≡ some n → Carries topic k n

  im_switch_lem :
      (k : Kind) (n id : ℕ) (p : Bytes)
      → Apart im_labels
      → im_number k ≡ some n
      → dump_im_switch proto n id p ≡ dump_body proto k n p
  unfolding dump_im_switch
  im_switch_lem k n id p apart h = ground arith

  live_switch_lem :
      (k : Kind) (n id : ℕ) (p : Bytes)
      → Apart live_labels
      → live_number k ≡ some n
      → dump_live_switch proto n id p ≡ dump_body proto k n p
  unfolding dump_live_switch
  live_switch_lem k n id p apart h = ground arith

  -- The broker passes topic and payload on.
  abbrev pub delivered : Publish → Message
  delivered p = record { topic = p.topic; payload = p.payload; retain = p.retain }

  module _ (topic body : Bytes) (k : Kind) (n id : ℕ) (t : Bytes) where
    -- The head of the topic's switch, and the body.
    abbrev shown : List Line
    shown =
        (if same_prefix 8 (codes "im/user/") topic
          then received topic n id (10 + length body)
          else received_live topic n id (10 + length body))
        ∷ decoded k t
        ∷ []

    body_decoded : proto.parse k body ≡ some t → dump_body proto k n (frame n id body) ≡ decoded k t
    unfolding dump_body
    body_decoded e = rw ((frame_body n id body).0, dump_body, e)

    sizes : ltb (length (frame n id body)) 10 ≡ false
    sizes = ground (arith, (frame_body n id body).1)

    im_shown :
        Apart im_labels
        → n < 2 ^ 16
        → id < 2 ^ 64
        → proto.parse k body ≡ some t
        → im_number k ≡ some n
        → dump_im_msg proto (delivered (send_mqtt_msg topic n id body))
          ≡ received topic n id (10 + length body) ∷ decoded k t ∷ []
    unfolding dump_im_msg send_mqtt_msg
    im_shown apart hn hi e known =
        rw
          (
            sizes,
            read_type-frame n id body hn,
            read_id-frame n id body hi,
            (frame_body n id body).1,
            im_switch_lem k n id (frame n id body) apart known,
          )
          (ap (λ l. received topic n id (10 + length body) ∷ l ∷ []) (body_decoded e))

    live_shown :
        Apart live_labels
        → n < 2 ^ 16
        → id < 2 ^ 64
        → proto.parse k body ≡ some t
        → live_number k ≡ some n
        → (same_prefix 8 (codes "im/user/") topic ≡ false)
          × (((same_prefix 11 (codes "codein/live") topic ≡ true)
              ⊎ (same_prefix 6 (codes "svc/os") topic ≡ true)))
        → dump_mqtt proto (delivered (send_mqtt_msg topic n id body))
          ≡ received_live topic n id (10 + length body) ∷ decoded k t ∷ []
    unfolding dump_mqtt send_mqtt_msg
    live_shown apart hn hi e known route =
        rw
          (
            route.0,
            listened route.1,
            sizes,
            read_type-frame n id body hn,
            read_id-frame n id body hi,
            (frame_body n id body).1,
            live_switch_lem k n id (frame n id body) apart known,
          )
          (ap (λ l. received_live topic n id (10 + length body) ∷ l ∷ []) (body_decoded e))
      where
        listened :
            (same_prefix 11 (codes "codein/live") topic ≡ true)
              ⊎ (same_prefix 6 (codes "svc/os") topic ≡ true)
            → not (same_prefix 11 (codes "codein/live") topic)
                && not (same_prefix 6 (codes "svc/os") topic)
              ≡ false
        listened h = ground arith

    Shows : Bool → Type 0
    Shows x =
        dump_mqtt proto (delivered (send_mqtt_msg topic n id body))
        ≡ (if x
            then received topic n id (10 + length body)
            else received_live topic n id (10 + length body))
          ∷ decoded k t
          ∷ []

    -- A message whose type the topic's switch knows, published by send_mqtt_msg, is dumped with the
    -- type, the id and the length that were sent, and with the text of its decoded body. The hypotheses:
    -- the labels of each switch are distinct, the type has 16 bits and the id 64, and the body decodes.
    pub dump_mqtt-send_mqtt_msg :
        Apart im_labels
        → Apart live_labels
        → n < 2 ^ 16
        → id < 2 ^ 64
        → proto.parse k body ≡ some t
        → Carries topic k n
        → dump_mqtt proto (delivered (send_mqtt_msg topic n id body)) ≡ shown
    unfolding dump_mqtt send_mqtt_msg Shows
    dump_mqtt-send_mqtt_msg a b hn hi e (im r on known) = rw on_im (im_shown a hn hi e known)
      where
        on_im : same_prefix 8 (codes "im/user/") topic ≡ true
        on_im = rw on
    dump_mqtt-send_mqtt_msg a b hn hi e (live r on known) =
        let off : same_prefix 8 (codes "im/user/") topic ≡ false = rw on in
        subst (λ x. Shows x) (sym off) (live_shown b hn hi e known (off, inl (rw on)))
    dump_mqtt-send_mqtt_msg a b hn hi e (svc r on known) =
        let off : same_prefix 8 (codes "im/user/") topic ≡ false = rw on in
        subst (λ x. Shows x) (sym off) (live_shown b hn hi e known (off, inr (rw on)))
