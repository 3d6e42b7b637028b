-- ===== src/Client/Options/Invariant.antt =====
-- client_config_line_proc of src/mqtt/client_shared.cc over a whole line.
use ktkkl.Base.{List, ◌≡◌, Bytes}
use ktkkl.Client.Config.{Config, Role, Build}
use ktkkl.Client.Options.Apply.{TopicChecks}
use ktkkl.Client.Options.Valid.{IsValid, Fails}
use ktkkl.Client.Options.Keep.{line_proc_holds, one-ne-zero}
use ktkkl.Client.Options.Branches.{option-Keeps}
use ktkkl.Client.Options.{line_proc}

module _ (b : Build) (role : Role) (tc : TopicChecks) where
  -- From a valid configuration, any arguments that client_config_line_proc accepts lead to a valid one:
  -- ports, qualities of service and counts are in range, at most one of id and id prefix is set, the
  -- lengths are those of the texts and the message has the source that its mode says.
  pub line_proc-IsValid :
      (cfg : Config) (args : List Bytes)
      → IsValid cfg
      → (line_proc b role tc cfg args).0 ≡ 0
      → IsValid (line_proc b role tc cfg args).1
  line_proc-IsValid =
      line_proc_holds IsValid Fails (λ r. r.0 ≡ 0 → IsValid r.1) (λ c v e. v)
        (λ rc c ne e. absurd (ne e)) (λ c v. one-ne-zero) b role tc
        (λ cfg v. option-Keeps role tc cfg v)
