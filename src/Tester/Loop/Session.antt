-- ===== src/Tester/Loop/Session.antt =====
-- When the client of src/mqtt/mqttest.cc counts as connected, and what it asks of the broker.
use ktkkl.Base.{
  ℕ, zero, suc, Bool, true, false, List, [], ◌∷◌, ◌++◌, map, ◌≡◌, refl, ap, ◌∙◌, arith,
  if◌then◌else◌,
}
use ktkkl.Base.Int.{pos, negsuc}
use ktkkl.Client.Config.{Config, text}
use ktkkl.Tester.Callbacks.{
  Globals, Action, subscribe, publish, count_message, my_message_callback, my_connect_callback,
  my_disconnect_callback, my_publish_callback, my_subscribe_callback, text_of,
}
use ktkkl.Tester.Loop.{
  Event, connack, message, published, subscribed, disconnected, logged, Links, handle, handle_all,
}
use ktkkl.Tester.Loop.Actions.{
  keep, keep-append, on_connection, accepts, accepted, linked, keep_subscriptions,
  message_connected, receive_kept,
}

module _ (l : Links) (cfg : Config) where
  -- What one accepted connection asks for: every topic in turn, then one message.
  abbrev pub opening : List Action
  opening =
      map (λ t. subscribe (text t) cfg.qos) cfg.topics ++ publish (l.send (text_of cfg.topic)) ∷ []

  abbrev pub openings : ℕ → List Action
  openings zero = []
  openings (suc n) = opening ++ openings n

  step_linked :
      (g : Globals) (e : Event) (es : List Event)
      → linked (handle l cfg g e).0.connected es ≡ linked g.connected (e ∷ es)
  unfolding handle my_connect_callback my_disconnect_callback my_publish_callback
      my_message_callback count_message
  step_linked g (connack (pos zero)) es = refl
  step_linked g (connack (pos (suc n))) es = refl
  step_linked g (connack (negsuc n)) es = refl
  step_linked g (message m) es = ap (λ b. linked b es) (message_connected l cfg g m)
  step_linked g (published mid) es = refl
  step_linked g (subscribed mid q qs) es = refl
  step_linked g (disconnected rc) es = refl
  step_linked g (logged t) es = refl

  -- Behind any events g_connected says what the last connection or disconnection among them says.
  pub handle_all-linked :
      (es : List Event) (g : Globals) → (handle_all l cfg g es).0.connected ≡ linked g.connected es
  unfolding handle_all
  handle_all-linked [] g = refl
  handle_all-linked (e ∷ es) g = handle_all-linked es (handle l cfg g e).0 ∙ step_linked g e es

  -- What one event asks of the broker.
  handle_kept :
      (g : Globals) (e : Event)
      → keep on_connection (handle l cfg g e).1 ≡ (if accepts e then opening else [])
  unfolding handle my_connect_callback my_disconnect_callback my_subscribe_callback
  handle_kept g (connack (pos zero)) =
      (keep_subscriptions cfg.qos (l.send (text_of cfg.topic)) cfg.topics).1
  handle_kept g (connack (pos (suc k))) = ground arith
  handle_kept g (connack (negsuc k)) = ground arith
  handle_kept g (message m) = (receive_kept l cfg g m).1
  handle_kept g (published mid) = refl
  handle_kept g (subscribed mid q qs) = ground arith
  handle_kept g (disconnected rc) = ground arith
  handle_kept g (logged t) = refl

  -- For each connection that the broker accepts, and for nothing else, the client subscribes to every
  -- topic of its options, in their order, and then publishes one message on its topic.
  pub handle_all_opening :
      (es : List Event) (g : Globals)
      → keep on_connection (handle_all l cfg g es).1 ≡ openings (accepted es)
  unfolding handle_all
  handle_all_opening [] g = refl
  handle_all_opening (e ∷ es) g =
      keep-append on_connection (handle l cfg g e).1 _
      ∙ ap (λ acts. acts ++ keep on_connection (handle_all l cfg (handle l cfg g e).0 es).1)
          (handle_kept g e)
      ∙ ap (◌++◌ (if accepts e then opening else [])) (handle_all_opening es (handle l cfg g e).0)
      ∙ add_opening (accepts e) (accepted es)
    where
      add_opening :
          (b : Bool) (n : ℕ)
          → (if b then opening else []) ++ openings n ≡ openings (if b then suc n else n)
      add_opening true n = refl
      add_opening false n = refl
