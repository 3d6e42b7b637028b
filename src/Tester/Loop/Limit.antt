-- ===== src/Tester/Loop/Limit.antt =====
-- What the client of src/mqtt/mqttest.cc does for its messages, whatever happens between them.
use ktkkl.Base.{
  ℕ, zero, suc, List, [], ◌∷◌, ◌++◌, ◌≡◌, refl, ap, ◌∙◌, arith, leb, if◌then◌else◌, length, take,
}
use ktkkl.Base.Int.{pos, negsuc}
use ktkkl.Client.Config.{Config}
use ktkkl.Tester.Dump.{Message}
use ktkkl.Tester.Callbacks.{
  Globals, first_globals, Action, disconnect, count_message, my_message_callback,
  my_connect_callback, my_disconnect_callback, my_publish_callback, my_subscribe_callback,
  receive_all, text_of,
}
use ktkkl.Tester.Callbacks.Limit.{dumps, passing, receive_all_limited}
use ktkkl.Tester.Loop.{
  Event, connack, message, published, subscribed, disconnected, logged, Links, handle, handle_all,
}
use ktkkl.Tester.Loop.Actions.{
  keep, keep-append, on_message, messages, keep_subscriptions, receive, receive_kept,
}

module _ (l : Links) (cfg : Config) where
  -- Two states that the message callback does not tell apart.
  abbrev Same : Globals → Globals → Type 0
  Same g g' = (g.process_messages ≡ g'.process_messages) × (g.msg_count ≡ g'.msg_count)

  message-Same :
      (g g' : Globals) (m : Message)
      → Same g g'
      → ((receive l cfg g m).1 ≡ (receive l cfg g' m).1)
        × Same (receive l cfg g m).0 (receive l cfg g' m).0
  unfolding my_message_callback count_message
  message-Same g g' m s = ground arith

  -- The callbacks of the other events leave the message state alone, and do nothing of its kind.
  other-Same :
      (g g' : Globals) (e : Event)
      → messages (e ∷ []) ≡ []
      → Same g g'
      → Same (handle l cfg g e).0 g' × (keep on_message (handle l cfg g e).1 ≡ [])
  unfolding handle my_connect_callback my_disconnect_callback my_publish_callback
      my_subscribe_callback
  other-Same g g' (connack (pos zero)) n s =
      (s, (keep_subscriptions cfg.qos (l.send (text_of cfg.topic)) cfg.topics).0)
  other-Same g g' (connack (pos (suc k))) n s = ground arith
  other-Same g g' (connack (negsuc k)) n s = ground arith
  other-Same g g' (message m) n s = absurd (cc)
  other-Same g g' (published mid) n s = ground arith
  other-Same g g' (subscribed mid q qs) n s = ground arith
  other-Same g g' (disconnected rc) n s = ground arith
  other-Same g g' (logged t) n s = ground arith

  -- An event that brings no message, in front of others; `target` is what is done for those.
  other_round :
      (e : Event) (es : List Event) (g g' : Globals) (target : List Action)
      → messages (e ∷ []) ≡ []
      → Same g g'
      → ((h : Globals) → Same h g' → keep on_message (handle_all l cfg h es).1 ≡ target)
      → keep on_message (handle_all l cfg g (e ∷ es)).1 ≡ target
  unfolding handle_all
  other_round e es g g' target n s ih =
      let (s', nothing) = other-Same g g' e n s in
      keep-append on_message (handle l cfg g e).1 _
      ∙ ap (λ acts. acts ++ keep on_message (handle_all l cfg (handle l cfg g e).0 es).1) nothing
      ∙ ih (handle l cfg g e).0 s'

  -- What is done for the messages does not depend on the events between them.
  keep-messages :
      (es : List Event) (g g' : Globals)
      → Same g g'
      → keep on_message (handle_all l cfg g es).1
        ≡ (receive_all l.matches l.proto l.stale cfg g' (messages es)).1
  unfolding handle_all receive_all handle
  keep-messages [] g g' s = refl
  keep-messages (message m ∷ es) g g' s =
      let (acts, s') = message-Same g g' m s in
      keep-append on_message (receive l cfg g m).1 _
      ∙ ap (λ a. a ++ keep on_message (handle_all l cfg (receive l cfg g m).0 es).1)
          ((receive_kept l cfg g m).0 ∙ acts)
      ∙ ap (◌++◌ (receive l cfg g' m).1)
          (keep-messages es (receive l cfg g m).0 (receive l cfg g' m).0 s')
  keep-messages (connack rc ∷ es) g g' s =
      other_round (connack rc) es g g' _ refl s (λ h k. keep-messages es h g' k)
  keep-messages (published mid ∷ es) g g' s =
      other_round (published mid) es g g' _ refl s (λ h k. keep-messages es h g' k)
  keep-messages (subscribed mid q qs ∷ es) g g' s =
      other_round (subscribed mid q qs) es g g' _ refl s (λ h k. keep-messages es h g' k)
  keep-messages (disconnected rc ∷ es) g g' s =
      other_round (disconnected rc) es g g' _ refl s (λ h k. keep-messages es h g' k)
  keep-messages (logged t ∷ es) g g' s =
      other_round (logged t) es g g' _ refl s (λ h k. keep-messages es h g' k)

  -- With the option -C n, for n from 1 on, and whatever else happens between the messages: of lines of
  -- the dump and calls of mosquitto_disconnect there are those for the first n messages that pass the
  -- filters, and one call behind them if there were that many.
  pub handle_all_limited :
      (n : ℕ) (es : List Event)
      → cfg.msg_count ≡ pos (suc n)
      → keep on_message (handle_all l cfg first_globals es).1
        ≡ dumps l.matches l.proto l.stale cfg
            (take (suc n) (passing l.matches l.proto l.stale cfg (messages es)))
          ++ (if leb (suc n) (length (passing l.matches l.proto l.stale cfg (messages es)))
              then disconnect ∷ []
              else [])
  handle_all_limited n es h =
      keep-messages es first_globals first_globals (refl, refl)
      ∙ receive_all_limited l.matches l.proto l.stale cfg n (messages es) h
