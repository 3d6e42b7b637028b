-- ===== src/Tester/Callbacks/Limit.antt =====
-- The option -C: the client disconnects after that many messages.
use ktkkl.Base.{
  ℕ, zero, suc, ◌+◌, Bool, true, false, List, [], ◌∷◌, ◌++◌, append_assoc, map, Option, ◌≡◌, refl,
  ap, sym, ◌∙◌, arith, Bytes, leb, if◌then◌else◌, Bool-cases, inl, inr, length, take,
}
use ktkkl.Base.Int.{pos, ltb_ℤ}
use ktkkl.Client.Config.{Config}
use ktkkl.Tester.Dump.{Protocol, Message, dump_mqtt}
use ktkkl.Tester.Callbacks.{
  Globals, first_globals, Action, print, disconnect, passes, count_message, my_message_callback,
  receive_all,
}

module _ (matches : Bytes → Bytes → Option Bool) (proto : Protocol) (stale : Bool)
    (cfg : Config) where
  -- The messages that neither the retain flag nor a filter drops.
  abbrev pub passing : List Message → List Message
  passing [] = []
  passing (m ∷ ms) = if passes matches proto stale cfg m then m ∷ passing ms else passing ms

  abbrev pub dumps : List Message → List Action
  dumps [] = []
  dumps (m ∷ ms) = map print (dump_mqtt proto m) ++ dumps ms

  abbrev callback : Globals → Message → Globals × List Action
  callback = my_message_callback matches proto stale cfg

  callback_stopped :
      (g : Globals) (m : Message) → g.process_messages ≡ false → callback g m ≡ (g, [])
  unfolding my_message_callback
  callback_stopped g m h = rw h

  callback_dropped :
      (g : Globals) (m : Message)
      → g.process_messages ≡ true
      → passes matches proto stale cfg m ≡ false
      → callback g m ≡ (g, [])
  unfolding my_message_callback passes
  callback_dropped g m h p = ground arith

  callback_passed :
      (g : Globals) (m : Message)
      → g.process_messages ≡ true
      → passes matches proto stale cfg m ≡ true
      → callback g m
        ≡ ((count_message cfg g).0, map print (dump_mqtt proto m) ++ (count_message cfg g).1)
  unfolding my_message_callback passes
  callback_passed g m h p = ground arith

  abbrev received : Globals → List Message → Globals × List Action
  received = receive_all matches proto stale cfg

  stopped : (g : Globals) (ms : List Message) → g.process_messages ≡ false → received g ms ≡ (g, [])
  unfolding receive_all
  stopped g [] h = refl
  stopped g (m ∷ ms) h = rw (callback_stopped g m h, stopped g ms h)

  -- Fewer messages than the limit so far: one more is counted.
  count_below :
      (g : Globals) (n : ℕ)
      → cfg.msg_count ≡ pos (g.msg_count + suc (suc n))
      → count_message cfg g ≡ (record g { msg_count = g.msg_count + 1 }, [])
  unfolding count_message
  count_below g n e = rw e (ground arith)

  count_last :
      (g : Globals)
      → cfg.msg_count ≡ pos (g.msg_count + 1)
      → count_message cfg g
        ≡ (record g { msg_count = g.msg_count + 1; process_messages = false }, disconnect ∷ [])
  unfolding count_message
  count_last g e = rw e (ground arith)

  count_unlimited :
      (g : Globals) → ltb_ℤ (pos 0) cfg.msg_count ≡ false → count_message cfg g ≡ (g, [])
  unfolding count_message
  count_unlimited g e = rw e

  abbrev limited : ℕ → List Message → List Action
  limited n ps = dumps (take n ps) ++ (if leb n (length ps) then disconnect ∷ [] else [])

  received_nil : (g : Globals) → (received g []).1 ≡ []
  unfolding receive_all
  received_nil g = refl

  received_drop :
      (g : Globals) (m : Message) (ms : List Message)
      → g.process_messages ≡ true
      → passes matches proto stale cfg m ≡ false
      → (received g (m ∷ ms)).1 ≡ (received g ms).1
  unfolding receive_all
  received_drop g m ms h p = rw (callback_dropped g m h p)

  received_pass :
      (g g' : Globals) (m : Message) (ms : List Message) (acts : List Action)
      → g.process_messages ≡ true
      → passes matches proto stale cfg m ≡ true
      → count_message cfg g ≡ (g', acts)
      → (received g (m ∷ ms)).1 ≡ map print (dump_mqtt proto m) ++ (acts ++ (received g' ms).1)
  unfolding receive_all
  received_pass g g' m ms acts h p c =
      rw (callback_passed g m h p, c) (append_assoc (map print (dump_mqtt proto m)) acts _)

  limited_cons :
      (n : ℕ) (m : Message) (ps : List Message)
      → limited (suc n) (m ∷ ps) ≡ map print (dump_mqtt proto m) ++ limited n ps
  limited_cons n m ps =
      append_assoc (map print (dump_mqtt proto m)) (dumps (take n ps)) _
      ∙ ap
          (λ b.
            map print (dump_mqtt proto m)
            ++ (dumps (take n ps) ++ (if b then disconnect ∷ [] else [])))
          (ground arith)

  -- A message that passes while the limit is not reached; `ih` is about the messages behind it.
  counted_round :
      (g : Globals) (m : Message) (ms : List Message) (n : ℕ)
      → g.process_messages ≡ true
      → cfg.msg_count ≡ pos (g.msg_count + suc n)
      → passes matches proto stale cfg m ≡ true
      → ((g' : Globals) (k : ℕ)
          → g'.process_messages ≡ true
          → cfg.msg_count ≡ pos (g'.msg_count + suc k)
          → (received g' ms).1 ≡ limited (suc k) (passing ms))
      → (received g (m ∷ ms)).1 ≡ map print (dump_mqtt proto m) ++ limited n (passing ms)
  counted_round g m ms zero h e p ih =
      let last = count_last g (e ∙ ap pos (omega arith)) in
      let room : true ≡ leb 0 (length (passing ms)) = ground arith in
      received_pass g _ m ms _ h p last
      ∙ ap (λ l. map print (dump_mqtt proto m) ++ (disconnect ∷ l))
          (ap (λ (r : Globals × List Action). r.1) (stopped _ ms refl))
      ∙ ap (λ b. map print (dump_mqtt proto m) ++ (if b then disconnect ∷ [] else [])) room
  counted_round g m ms (suc n) h e p ih =
      received_pass g _ m ms _ h p (count_below g n e)
      ∙ ap (◌++◌ (map print (dump_mqtt proto m)))
          (ih (record g { msg_count = g.msg_count + 1 }) n h (e ∙ ap pos (omega arith)))

  received-limited :
      (ms : List Message) (g : Globals) (n : ℕ)
      → g.process_messages ≡ true
      → cfg.msg_count ≡ pos (g.msg_count + suc n)
      → (received g ms).1 ≡ limited (suc n) (passing ms)
  received-limited [] g n h e = received_nil g ∙ ground arith
  received-limited (m ∷ ms) g n h e = elim (Bool-cases (passes matches proto stale cfg m)) [
    | inl p ↦
        rw p
          (counted_round g m ms n h e p (received-limited ms) ∙ sym (limited_cons n m (passing ms)))
    | inr p ↦ rw p (received_drop g m ms h p ∙ received-limited ms g n h e)
  ]

  -- With the option -C n, for n from 1 on, the client dumps the first n messages that pass its filters, in
  -- order, calls mosquitto_disconnect once if there were that many, and does nothing else.
  pub receive_all_limited :
      (n : ℕ) (ms : List Message)
      → cfg.msg_count ≡ pos (suc n)
      → (receive_all matches proto stale cfg first_globals ms).1
        ≡ dumps (take (suc n) (passing ms))
          ++ (if leb (suc n) (length (passing ms)) then disconnect ∷ [] else [])
  receive_all_limited n ms e = received-limited ms first_globals n refl (e ∙ ap pos (omega arith))

  -- Without the option every message that passes is dumped, and the client stays connected.
  received_unlimited :
      (ms : List Message) (g : Globals)
      → g.process_messages ≡ true
      → ltb_ℤ (pos 0) cfg.msg_count ≡ false
      → (received g ms).1 ≡ dumps (passing ms)
  received_unlimited [] g h e = received_nil g
  received_unlimited (m ∷ ms) g h e = elim (Bool-cases (passes matches proto stale cfg m)) [
    | inl p ↦ rw p (
        received_pass g g m ms [] h p (count_unlimited g e)
        ∙ ap (◌++◌ (map print (dump_mqtt proto m))) (received_unlimited ms g h e))
    | inr p ↦ rw p (received_drop g m ms h p ∙ received_unlimited ms g h e)
  ]
