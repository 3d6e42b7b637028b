-- ===== src/Auth/Lifecycle.antt =====
-- kafka_run, kafka_init, mosquitto_auth_plugin_init and mosquitto_auth_plugin_cleanup of
-- src/mqtt/auth_plugin.cc: the plugin's globals and what it creates and destroys.
pub mod Shutdown
use ktkkl.Base.{ℕ, zero, suc, Bool, true, false, List, [], ◌∷◌, Option, none, some, if◌then◌else◌}
use ktkkl.Auth.Connect.{MosqErr, success, conn_pending}

pub data Op : Type 0 where
  conf_new conf_destroy : Op
  pool_new pool_delete : ℕ → Op
  producer_new producer_destroy : ℕ → Op
  topic_new topic_destroy : ℕ → Op
  thread_new thread_join : ℕ → Op

-- The globals; a null pointer is `none`, another the number of what it points to. `ops` has the latest
-- operation first.
pub record Globals : Type 0 where
  pub pq_pool : Option ℕ
  pub kafka_thread : Option ℕ
  pub rk : Option ℕ
  pub rkt : Option ℕ
  pub future_taken : Bool
  pub ops : List Op

-- What the libraries answer during one call of the init function: the result of `new PQpool`, whether
-- rd_kafka_conf_set accepts the brokers, the results of rd_kafka_new and rd_kafka_topic_new, and the
-- new thread.
pub record Answers : Type 0 where
  pub pool : Option ℕ
  pub conf_set : Bool
  pub producer : Option ℕ
  pub topic : Option ℕ
  pub thread : ℕ

module _ {W : Type 0} (poll flush : ℕ → W → W) where
  -- `while (true) rd_kafka_poll(g_rk, 60*1000)`, with fuel for its rounds. There is no exit.
  pub poll_forever : ℕ → W → Option W
  poll_forever zero w = none
  poll_forever (suc fuel) w = poll_forever fuel (poll 60_000 w)

  -- What stands behind the loop: the flush, and the promise, which is set in the result.
  pub kafka_run : ℕ → W → Option (W × Bool)
  unfolding poll_forever
  kafka_run fuel w = elim (poll_forever fuel w) [
    | none ↦ none
    | some w' ↦ some (flush 10_000 w', true)
  ]

-- The result of kafka_init is 0, here `true`, or -1.
pub kafka_init : Answers → Globals → Bool × Globals
kafka_init a g =
    let g0 = record g { kafka_thread = none; ops = conf_new ∷ g.ops } in
    if a.conf_set
    then elim a.producer [
      | none ↦ (false, record g0 { rk = none })
      | some h ↦ elim a.topic [
        | none ↦ (
          false,
          record g0 {
            rk = some h;
            rkt = none;
            ops = producer_destroy h ∷ producer_new h ∷ conf_new ∷ g.ops;
          },
        )
        | some t ↦ (
          true,
          record g0 {
            rk = some h;
            rkt = some t;
            ops = topic_new t ∷ producer_new h ∷ conf_new ∷ g.ops;
          },
        )
      ]
    ]
    else (false, record g0 { ops = conf_destroy ∷ conf_new ∷ g.ops })

-- if (g_pq_pool != nullptr) { delete g_pq_pool; g_pq_pool = nullptr; }
pub delete_pool : Globals → Globals
delete_pool g = elim g.pq_pool [
  | none ↦ g
  | some p ↦ record g { pq_pool = none; ops = pool_delete p ∷ g.ops }
]

-- The end of a call: it returned a code, or an exception left it.
pub data Init : Type 0 where
  returned : MosqErr → Globals → Init
  future_error : Globals → Init

-- `ready` is the answer of future.wait_for(300ms): the promise was set within that time.
pub start_thread : Bool → Answers → Globals → Init
unfolding delete_pool
start_thread ready a g =
    if g.future_taken
    then future_error g
    else (let g1 = record g {
      future_taken = true;
      kafka_thread = some a.thread;
      ops = thread_new a.thread ∷ g.ops;
    } in
        if ready
        then (let g2 = delete_pool g1 in
            returned conn_pending
              (record g2 { kafka_thread = none; ops = thread_join a.thread ∷ g2.ops }))
        else returned success g1)

module _ {W : Type 0} (poll flush : ℕ → W → W) where
  -- `rounds` is how many times the new thread goes round its loop in 300 ms.
  unfoldable pub plugin_init : ℕ → W → Answers → Globals → Init
  unfolding start_thread kafka_init delete_pool
  plugin_init rounds w a g = elim a.pool [
    | none ↦ returned conn_pending (record g { pq_pool = none })
    | some p ↦
        let r = kafka_init a (record g { pq_pool = some p; ops = pool_new p ∷ g.ops }) in
        if r.0
        then start_thread (elim (kafka_run poll flush rounds w) [ none ↦ false | some _ ↦ true ]) a
            r.1
        else returned conn_pending (delete_pool r.1)
  ]

  -- g_kafka_thread->join() returns when the thread's function has.
  pub join_thread : ℕ → W → Globals → Option Globals
  join_thread fuel w g = elim g.kafka_thread [
    | none ↦ some g
    | some t ↦ elim (kafka_run poll flush fuel w) [
      | none ↦ none
      | some _ ↦ some (record g { kafka_thread = none; ops = thread_join t ∷ g.ops })
    ]
  ]

  pub destroy_topic : Globals → Globals
  destroy_topic g = elim g.rkt [
    | none ↦ g
    | some t ↦ record g { rkt = none; ops = topic_destroy t ∷ g.ops }
  ]

  pub destroy_producer : Globals → Globals
  destroy_producer g = elim g.rk [
    | none ↦ g
    | some h ↦ record g { rk = none; ops = producer_destroy h ∷ g.ops }
  ]

  -- `none`: it has not returned within the fuel given to the thread.
  pub plugin_cleanup : ℕ → W → Globals → Option (MosqErr × Globals)
  unfolding join_thread destroy_topic destroy_producer delete_pool
  plugin_cleanup fuel w g = elim (join_thread fuel w (delete_pool g)) [
    | none ↦ none
    | some g' ↦ some (success, destroy_producer (destroy_topic g'))
  ]
