-- ===== src/Auth/Lifecycle/Shutdown.antt =====
-- The producer's thread has no way out of its loop, and what follows from it.
use ktkkl.Base.{
  ℕ, zero, suc, ◌+◌, true, false, List, [], ◌∷◌, Option, none, some, ◌≡◌, ◌≢◌, refl, ◌↔◌, ◌⊎◌,
  arith, ◌==◌, if◌then◌else◌,
}
use ktkkl.Auth.Connect.{MosqErr, success, conn_pending}
use ktkkl.Auth.Lifecycle.{
  Op, Globals, Answers, Init, returned, future_error, producer_destroy, producer_new, conf_new,
  pool_new, pool_delete, kafka_run, plugin_init, plugin_cleanup,
}

-- How often the producer `h` was destroyed.
abbrev pub destroyed : ℕ → List Op → ℕ
destroyed h [] = 0
destroyed h (producer_destroy k ∷ l) = if k == h then suc (destroyed h l) else destroyed h l
destroyed h (_ ∷ l) = destroyed h l

-- Everything that the init function asks for was granted.
abbrev pub Granted : Answers → Type 0
Granted a = (a.pool ≢ none) × (a.conf_set ≡ true) × (a.producer ≢ none) × (a.topic ≢ none)

abbrev pub code : Init → Option MosqErr
code (returned rc g) = some rc
code (future_error g) = none

abbrev pub globals : Init → Globals
globals (returned rc g) = g
globals (future_error g) = g

module _ {W : Type 0} (poll flush : ℕ → W → W) where
  -- The thread's function never comes to the end, where it sets its promise.
  pub kafka_run_diverges : (fuel : ℕ) (w : W) → kafka_run poll flush fuel w ≡ none
  unfolding kafka_run
  kafka_run_diverges zero w = refl
  kafka_run_diverges (suc fuel) w = kafka_run_diverges fuel (poll 60_000 w)

  -- Once initialised, the plugin cannot be cleaned up: the call waits for the thread for ever.
  pub plugin_cleanup_hangs :
      (rounds fuel : ℕ) (w w' : W) (a : Answers) (g g' : Globals)
      → plugin_init poll flush rounds w a g ≡ returned success g'
      → plugin_cleanup poll flush fuel w' g' ≡ none
  unfolding plugin_init plugin_cleanup
  plugin_cleanup_hangs rounds fuel w w' a g g' h =
      ground (arith, kafka_run_diverges rounds w, kafka_run_diverges fuel w')

  -- Where the topic object cannot be created, the init function destroys the producer and keeps its
  -- pointer, so the clean-up that follows destroys it once more.
  pub producer_destroyed_twice :
      (rounds fuel : ℕ) (w w' : W) (a : Answers) (g : Globals) (p h : ℕ)
      → a.pool ≡ some p
      → a.conf_set ≡ true
      → a.producer ≡ some h
      → a.topic ≡ none
      → (g1 g2 : Globals) × (plugin_init poll flush rounds w a g ≡ returned conn_pending g1)
        × (plugin_cleanup poll flush fuel w' g1 ≡ some (success, g2))
        × (destroyed h g2.ops ≡ destroyed h g.ops + 2)
  unfolding plugin_init plugin_cleanup
  producer_destroyed_twice rounds fuel w w' a g p h e1 e2 e3 e4 = (
    record {
      pq_pool = none;
      kafka_thread = none;
      rk = some h;
      rkt = none;
      future_taken = g.future_taken;
      ops = pool_delete p ∷ producer_destroy h ∷ producer_new h ∷ conf_new ∷ pool_new p ∷ g.ops;
    },
    record {
      pq_pool = none;
      kafka_thread = none;
      rk = none;
      rkt = none;
      future_taken = g.future_taken;
      ops =
          producer_destroy h
          ∷ pool_delete p
          ∷ producer_destroy h
          ∷ producer_new h
          ∷ conf_new
          ∷ pool_new p
          ∷ g.ops;
    },
    ground arith,
    ground arith,
    ground arith,
  )

  -- The first init call succeeds exactly when everything was granted; else it leaves neither the pool
  -- nor a thread behind.
  pub plugin_init_outcome :
      (rounds : ℕ) (w : W) (a : Answers) (g : Globals)
      → g.future_taken ≡ false
      → g.kafka_thread ≡ none
      → let r = plugin_init poll flush rounds w a g in
        ((code r ≡ some success) ↔ Granted a)
        × ((code r ≡ some success)
            ⊎ (((globals r).pq_pool ≡ none) × ((globals r).kafka_thread ≡ none)))
  unfolding plugin_init
  plugin_init_outcome rounds w a g e f =
      let never = kafka_run_diverges rounds w in
      ((λ h. ground (arith, never), λ h. ground (arith, never)), ground (arith, never))
