-- ===== src/Tester/Loop/Actions.antt =====
-- Views of the events of src/mqtt/mqttest.cc and of what its callbacks do: the actions of one kind, and
-- what the events report.
use ktkkl.Base.{
  ℕ, zero, suc, Bool, true, false, List, [], ◌∷◌, ◌++◌, map, ◌≡◌, refl, ap, arith, if◌then◌else◌,
  Bool-cases, inl, inr,
}
use ktkkl.Base.Int.{ℤ, pos}
use ktkkl.Client.Config.{Config, CStr, text}
use ktkkl.Tester.Dump.{Line, Message, Publish, dump_mqtt}
use ktkkl.Tester.Callbacks.{
  Globals, Action, print, subscribe, publish, disconnect, count_message, my_message_callback,
}
use ktkkl.Tester.Loop.{Event, connack, message, disconnected, Links}

-- The actions of one kind, in their order.
abbrev pub keep : (Action → Bool) → List Action → List Action
keep p [] = []
keep p (a ∷ rest) = if p a then a ∷ keep p rest else keep p rest

pub keep-append :
    (p : Action → Bool) (xs ys : List Action) → keep p (xs ++ ys) ≡ keep p xs ++ keep p ys
keep-append p [] ys = refl
keep-append p (a ∷ rest) ys = elim (Bool-cases (p a)) [
  | inl e ↦ rw e (ap (◌∷◌ a) (keep-append p rest ys))
  | inr e ↦ rw e (keep-append p rest ys)
]

-- Lines of the dump and the call that ends the run.
abbrev pub on_message : Action → Bool
on_message (print l) = true
on_message disconnect = true
on_message _ = false

-- Calls that go to the broker for a new connection.
abbrev pub on_connection : Action → Bool
on_connection (subscribe t q) = true
on_connection (publish p) = true
on_connection _ = false

abbrev pub messages : List Event → List Message
messages [] = []
messages (message m ∷ es) = m ∷ messages es
messages (_ ∷ es) = messages es

-- The events that report an accepted connection.
abbrev pub accepts : Event → Bool
accepts (connack (pos zero)) = true
accepts _ = false

abbrev pub accepted : List Event → ℕ
accepted [] = 0
accepted (e ∷ es) = if accepts e then suc (accepted es) else accepted es

-- Whether the last event that says so reports a connection.
abbrev pub linked : Bool → List Event → Bool
linked b [] = b
linked b (connack (pos zero) ∷ es) = linked true es
linked b (disconnected rc ∷ es) = linked false es
linked b (_ ∷ es) = linked b es

pub keep_lines :
    (ls : List Line) (rest : List Action)
    → (keep on_message (map print ls ++ rest) ≡ map print ls ++ keep on_message rest)
      × (keep on_connection (map print ls ++ rest) ≡ keep on_connection rest)
keep_lines [] rest = (refl, refl)
keep_lines (a ∷ ls) rest = let (p, q) = keep_lines ls rest in (ap (◌∷◌ (print a)) p, q)

pub keep_subscriptions :
    (qos : ℤ) (send : Publish) (ts : List CStr)
    → let acts = map (λ t. subscribe (text t) qos) ts ++ publish send ∷ [] in
      (keep on_message acts ≡ []) × (keep on_connection acts ≡ acts)
keep_subscriptions qos send [] = (refl, refl)
keep_subscriptions qos send (t ∷ ts) =
    let (p, q) = keep_subscriptions qos send ts in (p, ap (◌∷◌ (subscribe (text t) qos)) q)

module _ (l : Links) (cfg : Config) where
  abbrev pub receive : Globals → Message → Globals × List Action
  receive = my_message_callback l.matches l.proto l.stale cfg

  pub message_connected : (g : Globals) (m : Message) → (receive g m).0.connected ≡ g.connected
  unfolding my_message_callback count_message
  message_connected g m = ground arith

  count_kept :
      (g : Globals)
      → (keep on_message (count_message cfg g).1 ≡ (count_message cfg g).1)
        × (keep on_connection (count_message cfg g).1 ≡ [])
  unfolding count_message
  count_kept g = ground arith

  pub receive_kept :
      (g : Globals) (m : Message)
      → (keep on_message (receive g m).1 ≡ (receive g m).1)
        × (keep on_connection (receive g m).1 ≡ [])
  unfolding my_message_callback
  receive_kept g m =
      let lines = keep_lines (dump_mqtt l.proto m) (count_message cfg g).1 in
      let counted = count_kept g in ground arith
