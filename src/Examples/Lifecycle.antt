-- ===== src/Examples/Lifecycle.antt =====
-- Inputs for the start and the end of the plugin.
use ktkkl.Base.{ℕ, true, false, [], ◌∷◌, none, some, ◌≡◌, refl, ◌↔◌, ◌⊎◌, arith}
use ktkkl.Auth.Connect.{success, conn_pending}
use ktkkl.Auth.Lifecycle.{
  Globals, Answers, returned, plugin_init, plugin_cleanup, thread_new, topic_new, producer_new,
  conf_new, pool_new,
}
use ktkkl.Auth.Lifecycle.Shutdown

abbrev unset : Globals
unset = record {
  pq_pool = none;
  kafka_thread = none;
  rk = none;
  rkt = none;
  future_taken = false;
  ops = [];
}

abbrev granted : Answers
granted = record { pool = some 1; conf_set = true; producer = some 2; topic = some 3; thread = 4 }

abbrev no_topic : Answers
no_topic = record granted { topic = none }

abbrev idle : ℕ → ℕ → ℕ
idle t w = w

abbrev running : Globals
running = record {
  pq_pool = some 1;
  kafka_thread = some 4;
  rk = some 2;
  rkt = some 3;
  future_taken = true;
  ops = thread_new 4 ∷ topic_new 3 ∷ producer_new 2 ∷ conf_new ∷ pool_new 1 ∷ [];
}

init_runs : plugin_init idle idle 8 0 granted unset ≡ returned success running
unfolding plugin_init
init_runs = ground (arith, Shutdown.kafka_run_diverges idle idle 8 0)

plugin_cleanup_hangs_example : plugin_cleanup idle idle 9 0 running ≡ none
plugin_cleanup_hangs_example =
    Shutdown.plugin_cleanup_hangs idle idle 8 9 0 0 granted unset running init_runs

producer_destroyed_twice_example :
    (g1 g2 : Globals) × (plugin_init idle idle 8 0 no_topic unset ≡ returned conn_pending g1)
    × (plugin_cleanup idle idle 9 0 g1 ≡ some (success, g2))
    × (Shutdown.destroyed 2 g2.ops ≡ 2)
producer_destroyed_twice_example =
    Shutdown.producer_destroyed_twice idle idle 8 9 0 0 no_topic unset 1 2 refl refl refl refl

plugin_init_outcome_example :
    let r = plugin_init idle idle 8 0 no_topic unset in
    ((Shutdown.code r ≡ some success) ↔ Shutdown.Granted no_topic)
    × ((Shutdown.code r ≡ some success)
        ⊎ (((Shutdown.globals r).pq_pool ≡ none) × ((Shutdown.globals r).kafka_thread ≡ none)))
plugin_init_outcome_example = Shutdown.plugin_init_outcome idle idle 8 0 no_topic unset refl refl
