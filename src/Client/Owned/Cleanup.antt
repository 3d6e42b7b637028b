-- ===== src/Client/Owned/Cleanup.antt =====
-- That the strings of src/mqtt/client_shared.cc are owned behind the options, before client_config_load
-- tests them and fills in what is missing.
use ktkkl.Base.{ℕ, List, Bytes}
use ktkkl.Client.Config.{Config, Role, Build}
use ktkkl.Client.Options.{line_proc}
use ktkkl.Client.Options.Apply.{TopicChecks}
use ktkkl.Client.Options.Keep.{line_proc_holds}
use ktkkl.Client.Load.{Machine, read_options}
use ktkkl.Client.Load.Invariant.{read_options_holds}
use ktkkl.Client.Owned.{IsOwned, init_config-IsOwned}
use ktkkl.Client.Owned.Branches.{Left, option-Keeps}

abbrev OwnedAfter : ℕ × Config → Type 0
OwnedAfter r = IsOwned r.1

module _ (b : Build) (role : Role) (tc : TopicChecks) where
  line_proc-OwnedAfter :
      (cfg : Config) (args : List Bytes) → IsOwned cfg → OwnedAfter (line_proc b role tc cfg args)
  line_proc-OwnedAfter =
      line_proc_holds IsOwned Left OwnedAfter (λ c v. v) (λ rc c v. v) (λ c v. v) b role tc
        (λ cfg v. option-Keeps role tc cfg v)

  -- Whatever the default file and the command line hold.
  pub read_options-IsOwned :
      (m : Machine) (args : List Bytes) → IsOwned (read_options m b role tc args).1
  read_options-IsOwned =
      read_options_holds IsOwned OwnedAfter (λ c v. v) (λ c v. v) init_config-IsOwned b role tc
        line_proc-OwnedAfter
