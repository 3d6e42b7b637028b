-- ===== src/Auth/Kafka.antt =====
-- kafka_send of src/mqtt/auth_plugin.cc. The loop of `goto retry` takes fuel, one for each call of
-- rd_kafka_produce.
pub mod Delivery
use ktkkl.Base.{ℕ, zero, suc, ◌∷◌, Option, none, some, Bytes}
use ktkkl.Auth.Services.{
  Services, State, M, MqttStatus, ProduceError, queue_full, refused, enqueued, produce_failed,
  polled,
}

module _ {W : Type 0} (sv : Services W) where
  pub send_loop : ℕ → Bytes → M W (Unit {0})
  send_loop zero buf s = none
  send_loop (suc fuel) buf s =
      let r = sv.produce buf s.world in
      elim r.0 [
        | none ↦ some (tt, record { world = r.1; log = enqueued buf ∷ s.log })
        | some queue_full ↦ send_loop fuel buf (record {
          world = sv.poll 1000 r.1;
          log = polled 1000 ∷ produce_failed queue_full ∷ s.log;
        })
        | some refused ↦ some (tt, record { world = r.1; log = produce_failed refused ∷ s.log })
      ]

  pub kafka_send : ℕ → MqttStatus → M W (Unit {0})
  unfolding send_loop
  kafka_send fuel msg = send_loop fuel (sv.serialize msg)
