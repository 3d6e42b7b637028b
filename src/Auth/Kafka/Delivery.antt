-- ===== src/Auth/Kafka/Delivery.antt =====
-- When kafka_send returns, and what it has handed over by then.
use ktkkl.Base.{
  ℕ, zero, suc, ◌+◌, ◌<◌, ◌∷◌, List, Option, none, some, ◌≡◌, ◌≢◌, refl, ◌∙◌, arith, Bytes,
}
use ktkkl.Auth.Services.{
  Services, State, MqttStatus, ProduceError, queue_full, refused, Event, enqueued, produce_failed,
  polled, held, uncleared, sent, polls,
}
use ktkkl.Auth.Kafka.{send_loop, kafka_send}

module _ {W : Type 0} (sv : Services W) (buf : Bytes) where
  -- The queue is full for the next `k` calls, and not for the one after them.
  abbrev pub FullFor : ℕ → W → Type 0
  FullFor zero w = (sv.produce buf w).0 ≢ some queue_full
  FullFor (suc k) w =
      ((sv.produce buf w).0 ≡ some queue_full) × FullFor k (sv.poll 1000 (sv.produce buf w).1)

  -- What rd_kafka_produce answers after `k` polls.
  abbrev pub final_answer : ℕ → W → Option ProduceError
  final_answer zero w = (sv.produce buf w).0
  final_answer (suc k) w = final_answer k (sv.poll 1000 (sv.produce buf w).1)

  abbrev pub sent_after : Option ProduceError → List Bytes → List Bytes
  sent_after none bs = buf ∷ bs
  sent_after (some e) bs = bs

  -- How the log has grown after `k` polls.
  pub record Handed (k : ℕ) (answer : Option ProduceError) (l l' : List Event) : Type 0 where
    pub payload : sent l' ≡ sent_after answer (sent l)
    pub connections : held l' ≡ held l
    pub results : uncleared l' ≡ uncleared l
    pub rounds : polls l' ≡ k + polls l

  -- What the call leaves in the state.
  abbrev Sends : ℕ → ℕ → State W → Type 0
  Sends k fuel s =
      (s' : State W) × (send_loop sv fuel buf s ≡ some (tt, s'))
      × Handed k (final_answer k s.world) s.log s'.log

  send_once :
      (fuel : ℕ) (s : State W) (a : Option ProduceError)
      → (sv.produce buf s.world).0 ≡ a
      → a ≢ some queue_full
      → Sends 0 (suc fuel) s
  unfolding send_loop
  send_once fuel s none e h = (
    record { world = (sv.produce buf s.world).1; log = enqueued buf ∷ s.log },
    rw (e, send_loop),
    rw e (record { payload = refl; connections = refl; results = refl; rounds = omega arith }),
  )
  send_once fuel s (some queue_full) e h = absurd (h refl)
  send_once fuel s (some refused) e h = (
    record { world = (sv.produce buf s.world).1; log = produce_failed refused ∷ s.log },
    rw (e, send_loop),
    rw e (record { payload = refl; connections = refl; results = refl; rounds = omega arith }),
  )

  abbrev polled_state : State W → State W
  polled_state s = record {
    world = sv.poll 1000 (sv.produce buf s.world).1;
    log = polled 1000 ∷ produce_failed queue_full ∷ s.log;
  }

  send_again :
      (fuel : ℕ) (s : State W)
      → (sv.produce buf s.world).0 ≡ some queue_full
      → send_loop sv (suc fuel) buf s ≡ send_loop sv fuel buf (polled_state s)
  unfolding send_loop
  send_again fuel s e = rw (e, send_loop)

  pub send_loop_total : (k fuel : ℕ) (s : State W) → FullFor k s.world → k < fuel → Sends k fuel s
  send_loop_total k zero s d h = absurd (omega arith)
  send_loop_total zero (suc fuel) s d h = send_once fuel s _ refl d
  send_loop_total (suc k) (suc fuel) s d h =
      let (s', ran, grown) = send_loop_total k fuel (polled_state s) d.1 (omega arith) in
      (
        s',
        send_again fuel s d.0 ∙ ran,
        record {
          payload = grown.payload;
          connections = grown.connections;
          results = grown.results;
          rounds = omega (arith, grown.rounds);
        },
      )

  -- While the queue stays full no amount of fuel lets the loop return.
  pub send_loop_stuck :
      ((w : W) → (sv.produce buf w).0 ≡ some queue_full)
      → (fuel : ℕ) (s : State W) → send_loop sv fuel buf s ≡ none
  unfolding send_loop
  send_loop_stuck full zero s = refl
  send_loop_stuck full (suc fuel) s = rw (full s.world, send_loop) (send_loop_stuck full fuel _)

module _ {W : Type 0} (sv : Services W) (msg : MqttStatus) where
  -- Where the producer's queue is full for `k` calls and then not, kafka_send returns after `k` polls;
  -- it has handed over the serialized message exactly if the last call did not fail, and has borrowed
  -- no connection and left no query result.
  pub kafka_send_total :
      (k fuel : ℕ) (s : State W)
      → FullFor sv (sv.serialize msg) k s.world
      → k < fuel
      → (s' : State W) × (kafka_send sv fuel msg s ≡ some (tt, s'))
        × Handed sv (sv.serialize msg) k (final_answer sv (sv.serialize msg) k s.world) s.log s'.log
  unfolding kafka_send
  kafka_send_total = send_loop_total sv (sv.serialize msg)

  -- While the producer's queue stays full, kafka_send does not return, whatever the fuel.
  pub kafka_send_stuck :
      ((w : W) → (sv.produce (sv.serialize msg) w).0 ≡ some queue_full)
      → (fuel : ℕ) (s : State W) → kafka_send sv fuel msg s ≡ none
  unfolding kafka_send
  kafka_send_stuck = send_loop_stuck sv (sv.serialize msg)
