-- ===== src/Tester/Main/Order.antt =====
-- That the main of src/mqtt/mqttest.cc keeps the order of calls, whatever its options are and whatever the
-- library answers.
use ktkkl.Base.{
  ℕ, zero, suc, Bool, true, false, ◌&&◌, ◌||◌, List, [], ◌∷◌, ◌++◌, Option, none, some, ◌≡◌, refl,
  ◌⊎◌, arith, Bytes, codes, All, inl, inr, Bool-cases, if◌then◌else◌,
}
use mathlib.Core.Path.{subst}
use ktkkl.Base.Int.{ℤ, pos, negsuc, ltb_ℤ}
use ktkkl.Client.Config.{Config, Build, client_sub}
use ktkkl.Client.Options.Apply.{TopicChecks}
use ktkkl.Client.Load.{Machine, given, client_config_load}
use ktkkl.Client.Ident.{client_id_generate}
use ktkkl.Client.Library.{
  Call, Ran, call, lib_init, lib_cleanup, new, callback_set, on_log, on_subscribe, on_connect,
  on_message, on_publish, on_disconnect,
}
use ktkkl.Client.Setup.{is_error, connect_call, client_opts_set, client_connect}
use ktkkl.Client.Setup.Outcome.{Outcome, done, stopped, when, wanted, client_opts_set-Outcome}
use ktkkl.Tester.Main.{
  Surroundings, then_run, run_connected, run_created, run_named, run_loaded, main,
}
use ktkkl.Tester.Main.Protocol.{
  outside, inside, holding, closed, leaked, is_setting, is_connect, init, create, create_failed,
  setting, connect, connect_failed, loop, release, leave, abandon, here, next, Run-append, refused,
  finished, failed, lost, Ends, Ends-then, settings-Run,
}

AllSettings : List Call → Type 0
AllSettings = All (λ c. is_setting c ≡ true)

error_of_positive : (n : ℤ) → ltb_ℤ (pos 0) n ≡ true → is_error n ≡ true
error_of_positive (pos zero) h = ground arith
error_of_positive (pos (suc n)) h = refl
error_of_positive (negsuc n) h = refl

some_injective : {A : Type 0} {a b : A} → some a ≡ some b → a ≡ b
some_injective q = cc

module _ (e : Surroundings) (b : Build) where
  connect_call_lem : (cfg : Config) → is_connect (connect_call e.answer b cfg) ≡ true
  connect_call_lem cfg = elim (Bool-cases (b.srv && cfg.use_srv)) [
    | inl h ↦ rw h refl
    | inr h ↦ rw h refl
  ]

  run_connected-Ends : (cfg : Config) → Ends e holding (run_connected e b cfg)
  unfolding run_connected client_connect
  run_connected-Ends cfg =
      let c = connect_call e.answer b cfg in
      elim (Bool-cases (ltb_ℤ (pos 0) (e.answer c))) [
        | inl h ↦
            rw (h, error_of_positive (e.answer c) h)
              (record {
                last = leaked;
                run = next (connect_failed c (connect_call_lem cfg) h) (next abandon here);
                ended = lost (error_of_positive (e.answer c) h);
              })
        | inr h ↦ rw h (record {
          last = closed;
          run =
              next (connect c (connect_call_lem cfg) h)
                (next loop (next release (next leave here)));
          ended = finished (c ∷ []) refl;
        })
      ]

  when-AllSettings :
      (asked : Bool) (c : Call) (cs : List Call)
      → is_setting c ≡ true
      → AllSettings cs
      → AllSettings (when asked c cs)
  unfolding AllSettings
  when-AllSettings true c cs s ss = (s, ss)
  when-AllSettings false c cs s ss = ss

  -- What comes before the call that failed, and this call.
  split-AllSettings :
      (before : List Call) (c : Call) (after : List Call)
      → AllSettings (before ++ c ∷ after)
      → AllSettings before × (is_setting c ≡ true)
  unfolding AllSettings
  split-AllSettings [] c after (s, ss) = (tt, s)
  split-AllSettings (d ∷ before) c after (s, ss) =
      let (bs, k) = split-AllSettings before c after ss in ((s, bs), k)

  -- What main makes of a result of client_opts_set.
  abbrev go_on : Ran ℤ → Ran ℤ → Ran ℤ
  go_on r rest = if is_error r.1 then (r.0, pos 1) else then_run r.0 rest

  set_up-Ends :
      (cs : List Call) (r rest : Ran ℤ)
      → AllSettings cs
      → Outcome e.answer cs r
      → Ends e holding rest
      → Ends e holding (go_on r rest)
  unfolding AllSettings
  set_up-Ends cs r rest ss (done ps) t = Ends-then e holding holding cs rest (settings-Run cs ss) t
  set_up-Ends cs r rest ss (stopped before c after code q ps s k) t =
      let (bs, set) = split-AllSettings before c after (subst AllSettings q ss) in
      rw k (record {
        last = leaked;
        run = Run-append (settings-Run before bs) (next (setting c set) (next abandon here));
        ended = lost refl;
      })

  wanted-AllSettings : (c : Config) → AllSettings (wanted b c)
  unfolding wanted AllSettings
  wanted-AllSettings c = when-AllSettings (given c.will_topic) _ _ refl (
      when-AllSettings (given c.username) _ _ refl (
        when-AllSettings (b.tls && (given c.cafile || given c.capath)) _ _ refl (
          when-AllSettings (b.tls && c.insecure) _ _ refl (
            when-AllSettings ((b.tls && b.tls_psk) && given c.psk) _ _ refl (
              when-AllSettings (b.tls && (given c.tls_version || given c.ciphers)) _ _ refl
                (refl, when-AllSettings (b.socks && given c.socks5_host) _ _ refl (refl, tt)))))))

  run_created-Ends : (cfg : Config) → Ends e holding (run_created e b cfg)
  unfolding run_created
  run_created-Ends cfg =
      set_up-Ends (wanted b cfg) (client_opts_set e.answer b cfg) _ (wanted-AllSettings cfg)
        (client_opts_set-Outcome e.answer b cfg)
        (Ends-then e holding holding callbacks (run_connected e b cfg)
          (settings-Run callbacks (refl, (refl, (refl, (refl, (refl, (refl, tt)))))))
          (run_connected-Ends cfg))
    where
      callbacks : List Call
      callbacks =
          callback_set on_log
          ∷ callback_set on_subscribe
          ∷ callback_set on_connect
          ∷ callback_set on_message
          ∷ callback_set on_publish
          ∷ callback_set on_disconnect
          ∷ []

  run_named-Ends : (cfg : Config) → Ends e inside (run_named e b cfg)
  unfolding run_named
  run_named-Ends cfg = go e.new_succeeds refl
    where
      go :
          (ok : Bool)
          → e.new_succeeds ≡ ok
          → Ends e inside (
              call
                (new cfg.id cfg.clean_session)
                (if ok then run_created e b cfg else call lib_cleanup ([], pos 1)))
      go true ok =
          Ends-then e inside holding (new cfg.id cfg.clean_session ∷ []) (run_created e b cfg)
            (next (create cfg.id cfg.clean_session ok) here) (run_created-Ends cfg)
      go false ok = record {
        last = closed;
        run = next (create_failed cfg.id cfg.clean_session ok) (next leave here);
        ended = failed refl;
      }

  -- client_id_generate makes no call, or cleans up and fails.
  id_calls :
      (cfg : Config)
      → let r = client_id_generate e.memory e.pid e.hostname (codes "code") cfg in
        ((r.0 ≡ []) × (r.1.0 ≡ pos 0)) ⊎ ((r.0 ≡ lib_cleanup ∷ []) × (r.1.0 ≡ pos 1))
  unfolding client_id_generate
  id_calls cfg = ground arith

  run_loaded-Ends : (cfg : Config) → Ends e outside (run_loaded e b cfg)
  unfolding run_loaded
  run_loaded-Ends cfg = elim (id_calls cfg) [
    | inl (no_calls, zero_code) ↦
        rw (no_calls, zero_code)
          (Ends-then e outside inside (lib_init ∷ []) (run_named e b _) (next init here)
            (run_named-Ends _))
    | inr (cleaned, code) ↦
        rw (cleaned, code)
          (record { last = closed; run = next init (next leave here); ended = failed refl })
  ]

  -- Every run of main that reaches an end calls the library in the order that it allows: first
  -- mosquitto_lib_init, a handle that mosquitto_new returned before it is used, a connect call with no
  -- error code before the loop, nothing behind the one mosquitto_lib_cleanup. A run that never started the library has an exit code other than 0, as has one
  -- that leaves the handle behind; any other either failed or ends with the loop, mosquitto_destroy and
  -- mosquitto_lib_cleanup.
  pub main-Ends :
      (m : Machine) (tc : TopicChecks) (args : List Bytes) (r : Ran ℤ)
      → main e b m tc args ≡ some r
      → Ends e outside r
  unfolding main
  main-Ends m tc args r h = go (client_config_load m b client_sub tc args) h
    where
      go :
          (o : Option (ℕ × Config))
          → (elim o as (λ _. Option (Ran ℤ)) [
            | none ↦ none
            | some (rc, cfg) ↦ elim rc [
              | zero ↦ some (run_loaded e b cfg)
              | suc n ↦ some ([], pos 1)
            ]
          ])
            ≡ some r
          → Ends e outside r
      go none q = absurd (cc)
      go (some (zero, cfg)) q = subst (Ends e outside) (some_injective q) (run_loaded-Ends cfg)
      go (some (suc n, cfg)) q =
          subst (Ends e outside) (some_injective q)
            (record { last = outside; run = here; ended = refused refl })
