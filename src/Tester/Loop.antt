-- ===== src/Tester/Loop.antt =====
-- What mosquitto_loop_forever does with the callbacks of src/mqtt/mqttest.cc: it calls one of them for each
-- event of the connection, in the order of the events.
pub mod Actions
pub mod Session
pub mod Limit
use ktkkl.Base.{ℕ, Bool, List, [], ◌∷◌, ◌++◌, Option, Bytes}
use ktkkl.Base.Int.{ℤ}
use ktkkl.Client.Config.{Config}
use ktkkl.Tester.Dump.{Protocol, Message, Publish}
use ktkkl.Tester.Callbacks.{
  Globals, Action, my_connect_callback, my_message_callback, my_publish_callback,
  my_subscribe_callback, my_disconnect_callback,
}

pub data Event : Type 0 where
  connack : ℤ → Event
  message : Message → Event
  published : ℤ → Event
  subscribed : ℤ → ℤ → List ℤ → Event
  disconnected : ℤ → Event
  logged : Bytes → Event

-- What the callbacks use of the libraries: topic filters, the messages, the stale local of the filter
-- loop, the message that is sent and two numbers of mosquitto.h.
pub record Links : Type 0 where
  pub matches : Bytes → Bytes → Option Bool
  pub proto : Protocol
  pub stale : Bool
  pub send : Option Bytes → Publish
  pub err_auth : ℤ
  pub err_conn_refused : ℤ

module _ (l : Links) (cfg : Config) where
  -- The callback that main has set for the event; my_log_callback does nothing.
  unfoldable pub handle : Globals → Event → Globals × List Action
  handle g (connack rc) = my_connect_callback l.send cfg g rc
  handle g (message m) = my_message_callback l.matches l.proto l.stale cfg g m
  handle g (published mid) = (my_publish_callback g mid, [])
  handle g (subscribed mid first others) = (g, my_subscribe_callback cfg mid first others)
  handle g (disconnected rc) = my_disconnect_callback l.err_auth l.err_conn_refused g rc
  handle g (logged text) = (g, [])

  pub handle_all : Globals → List Event → Globals × List Action
  handle_all g [] = (g, [])
  handle_all g (e ∷ es) =
      let r = handle g e in let rest = handle_all r.0 es in (rest.0, r.1 ++ rest.1)
