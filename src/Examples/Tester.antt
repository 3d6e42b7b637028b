-- ===== src/Examples/Tester.antt =====
-- Inputs for src/mqtt/mqttest.cc: numbers for the message types, a decoder that keeps the body.
use ktkkl.Base.{
  All, ◌⊎◌, none, List, Bool, true, false, [], ◌∷◌, ◌++◌, Option, some, ◌≡◌, refl, arith, Bytes,
  codes, get_or, ◌==◌,
}
use ktkkl.Base.Int.{pos}
use ktkkl.Client.Config.{Config, init_config, heap}
use ktkkl.Tester.Wire.{read_id, frame}
use ktkkl.Tester.Wire.RoundTrip
use ktkkl.Tester.Dump.{
  Protocol, Message, received_live, decoded, game_live_state, dump_mqtt, send_mqtt_msg,
}
use ktkkl.Tester.Dump.Delivery
use ktkkl.Tester.Callbacks.{first_globals, disconnect, passes, filtered, receive_all}
use ktkkl.Tester.Callbacks.Limit
use ktkkl.Tester.Usage.{Version, usage}
use ktkkl.Tester.Usage.Known
use ktkkl.Tester.Usage.Documented.{documented, one_of}
use ktkkl.Tester.Usage.Letters
use ktkkl.Client.Options.{line_proc, line_step}
use ktkkl.Client.Options.Table.{table, find_option}
use ktkkl.Client.Options.Apply.{apply_option}
use ktkkl.Libc.{atoi}
use ktkkl.Examples.Client.{full_build, checks}
use ktkkl.Tester.Loop
use ktkkl.Tester.Loop.{Event, connack, message, published, disconnected, Links, handle_all}
use ktkkl.Tester.Loop.Actions.{keep, on_message, on_connection}

abbrev proto : Protocol
proto = record {
  im_add_contact = 1;
  im_share_soc_id = 2;
  im_feedback_msg = 3;
  lmt_system_notification = 1;
  lmt_service_response = 2;
  lmt_nearby_user_update = 3;
  lmt_game_contact_info = 4;
  lmt_game_live_state = 5;
  lmt_live_connect_notify = 6;
  lmt_server_status = 7;
  parse = λ k b. some b;
}

abbrev body : Bytes
body = codes "idle"

read_id-frame_example : read_id (frame 5 0x1122_3344_5566_7788 body) ≡ 0x1122_3344_5566_7788
read_id-frame_example = RoundTrip.read_id-frame 5 0x1122_3344_5566_7788 body (omega arith)

dump_mqtt-send_mqtt_msg_example :
    dump_mqtt proto (
      Delivery.delivered proto (send_mqtt_msg (codes "codein/live/7") 5 0x1122_3344_5566_7788 body))
    ≡ received_live (codes "codein/live/7") 5 0x1122_3344_5566_7788 14
      ∷ decoded game_live_state body
      ∷ []
dump_mqtt-send_mqtt_msg_example =
    Delivery.dump_mqtt-send_mqtt_msg proto (codes "codein/live/7") body game_live_state 5
      0x1122_3344_5566_7788 body (omega arith) (omega arith) (omega arith) (omega arith) refl
      (Delivery.live (codes "/7") refl refl)

abbrev two_only : Config
two_only = record init_config {
  msg_count = pos 2;
  no_retain = true;
  filter_outs = heap 0 (codes "svc/#") ∷ [];
}

abbrev first_only : Bytes → Bytes → Option Bool
first_only f t = some (get_or t 0 0 == b's')

abbrev on_live : Message
on_live = record { topic = codes "codein/live"; payload = []; retain = false }

receive_all_limited_example :
    (receive_all first_only proto false two_only first_globals
      (on_live ∷ record on_live { retain = true } ∷ on_live ∷ on_live ∷ [])).1
    ≡ Limit.dumps first_only proto false two_only (on_live ∷ on_live ∷ []) ++ disconnect ∷ []
unfolding init_config passes filtered
receive_all_limited_example =
    Limit.receive_all_limited first_only proto false two_only 1
      (on_live ∷ record on_live { retain = true } ∷ on_live ∷ on_live ∷ []) refl

-- A decoder and a filter as above; what is sent is empty.
abbrev links : Links
links = record {
  matches = first_only;
  proto = proto;
  stale = false;
  send = λ t. send_mqtt_msg (elim t [ none ↦ [] | some s ↦ s ]) 5 7 [];
  err_auth = pos 11;
  err_conn_refused = pos 5;
}

-- Two connections with messages on both.
abbrev events : List Event
events =
    connack (pos 5)
    ∷ connack (pos 0)
    ∷ message on_live
    ∷ disconnected (pos 7)
    ∷ connack (pos 0)
    ∷ published (pos 2)
    ∷ message on_live
    ∷ message on_live
    ∷ []

handle_all_limited_example :
    keep on_message (handle_all links two_only first_globals events).1
    ≡ Limit.dumps first_only proto false two_only (on_live ∷ on_live ∷ []) ++ disconnect ∷ []
unfolding init_config passes filtered
handle_all_limited_example = Loop.Limit.handle_all_limited links two_only 1 events refl

handle_all-linked_example : (handle_all links two_only first_globals events).0.connected ≡ true
handle_all-linked_example = Loop.Session.handle_all-linked links two_only events first_globals

handle_all_opening_example :
    keep on_connection (handle_all links two_only first_globals events).1
    ≡ Loop.Session.openings links two_only 2
handle_all_opening_example = Loop.Session.handle_all_opening links two_only events first_globals

abbrev version : Version
version = record { major = 1; minor = 4; revision = 14 }

usage-Usable_example : All (Known.Usable full_build checks) (documented (usage version full_build))
usage-Usable_example = Known.usage-Usable full_build checks refl refl version

usage-letters_example :
    ((one_of (codes "-q") (documented (usage version full_build)) ≡ true)
      ⊎ ((codes "-q" ≡ codes "-b") ⊎ (codes "-q" ≡ codes "-M")))
    × (one_of (codes "-b") (documented (usage version full_build)) ≡ false)
    × (one_of (codes "-M") (documented (usage version full_build)) ≡ false)
unfolding line_proc line_step find_option table apply_option atoi init_config
usage-letters_example =
    Letters.usage-letters version full_build checks init_config b'q' (codes "1" ∷ [])
      (λ e. absurd (omega (arith, e)))
