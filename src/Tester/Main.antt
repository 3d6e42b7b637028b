-- ===== src/Tester/Main.antt =====
-- main of src/mqtt/mqttest.cc, as the calls of libmosquitto that it makes and its exit code. What it
-- prints is left out.
pub mod Protocol
pub mod Order
use ktkkl.Base.{
  ℕ, zero, suc, Bool, true, false, ◌&&◌, List, [], ◌∷◌, ◌++◌, Option, none, some, Bytes, codes,
  ◌==◌, if◌then◌else◌,
}
use ktkkl.Base.Int.{ℤ, pos, negsuc, ltb_ℤ}
use ktkkl.Client.Config.{Config, Build, client_sub}
use ktkkl.Client.Options.Apply.{TopicChecks}
use ktkkl.Client.Load.{Machine, client_config_load}
use ktkkl.Client.Ident.{client_id_generate}
use ktkkl.Client.Library.{
  Call, Ran, call, lib_init, lib_cleanup, new, callback_set, on_log, on_subscribe, on_connect,
  on_message, on_publish, on_disconnect, loop_forever, destroy,
}
use ktkkl.Client.Setup.{is_error, client_opts_set, client_connect}

-- What main asks of its surroundings: whether malloc succeeds, the process id, the host's name, the
-- number of MOSQ_ERR_NO_CONN, whether mosquitto_new returns a handle, and the codes of the other calls.
-- For loop_forever the code stands at the end of the loop.
pub record Surroundings : Type 0 where
  pub memory : Bool
  pub pid : ℕ
  pub hostname : Bytes
  pub no_conn : ℤ
  pub new_succeeds : Bool
  pub answer : Call → ℤ

abbrev same_code : ℤ → ℤ → Bool
same_code (pos a) (pos b) = a == b
same_code (negsuc a) (negsuc b) = a == b
same_code _ _ = false

-- Calls in front of those of the rest.
abbrev pub then_run : List Call → Ran ℤ → Ran ℤ
then_run log (more, code) = (log ++ more, code)

module _ (e : Surroundings) (b : Build) where
  -- A client that was stopped by its own message count is a success.
  unfoldable pub exit_code : Config → ℤ
  exit_code cfg =
      if ltb_ℤ (pos 0) cfg.msg_count && same_code (e.answer loop_forever) e.no_conn
      then pos 0
      else e.answer loop_forever

  -- From client_connect on.
  unfoldable pub run_connected : Config → Ran ℤ
  unfolding exit_code
  run_connected cfg =
      let (log, rc) = client_connect e.answer b cfg in
      if is_error rc
      then (log, rc)
      else then_run log (call loop_forever (call destroy (call lib_cleanup ([], exit_code cfg))))

  -- From client_opts_set on.
  unfoldable pub run_created : Config → Ran ℤ
  run_created cfg =
      let (log, rc) = client_opts_set e.answer b cfg in
      if is_error rc
      then (log, pos 1)
      else then_run log (
          call (callback_set on_log) (
            call (callback_set on_subscribe) (
              call (callback_set on_connect) (
                call (callback_set on_message) (
                  call (callback_set on_publish)
                    (call (callback_set on_disconnect) (run_connected cfg)))))))

  -- From mosquitto_new on.
  unfoldable pub run_named : Config → Ran ℤ
  run_named cfg =
      call (new cfg.id cfg.clean_session)
        (if e.new_succeeds then run_created cfg else call lib_cleanup ([], pos 1))

  -- From mosquitto_lib_init on.
  unfoldable pub run_loaded : Config → Ran ℤ
  run_loaded cfg =
      let (log, (rc, cfg')) = client_id_generate e.memory e.pid e.hostname (codes "code") cfg in
      call lib_init (if is_error rc then (log, pos 1) else then_run log (run_named cfg'))

  -- `none` is a write past the end of a block, in client_config_load.
  unfoldable pub main : Machine → TopicChecks → List Bytes → Option (Ran ℤ)
  main m tc args = elim (client_config_load m b client_sub tc args) [
    | none ↦ none
    | some (rc, cfg) ↦ elim rc [ zero ↦ some (run_loaded cfg) | suc n ↦ some ([], pos 1) ]
  ]
