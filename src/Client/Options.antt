-- ===== src/Client/Options.antt =====
-- client_config_line_proc of src/mqtt/client_shared.cc: the options of a line of the configuration file
-- or of the command line. The chain of comparisons with the argument is a table from its words to the
-- bodies of its branches, in the order of the source.
pub mod Table
pub mod Apply
pub mod Keep
pub mod Words
pub mod Valid
pub mod Branches
pub mod Invariant
pub mod Append
use ktkkl.Base.{
  ℕ, zero, suc, Bool, true, false, List, [], ◌∷◌, Option, none, some, Bytes, if◌then◌else◌,
}
use ktkkl.Client.Config.{Config, Role, Build}
use Table.{Opt, find_option, table}
use Apply.{TopicChecks, Step, next, next_two, stop, apply_option}

-- The branch for argv[i]; `value` is argv[i+1], `none` where i is argc-1. `unknown_option` returns 1.
unfoldable pub line_step : Build → Role → TopicChecks → Config → Bytes → Option Bytes → Step
line_step b role tc cfg arg value = elim (find_option arg (table b)) [
  | none ↦ stop 1 cfg
  | some o ↦ apply_option role tc cfg o value
]

-- The loop over argv from 1 on: the return code, 0 for MOSQ_ERR_SUCCESS, and the configuration.
unfoldable pub line_proc : Build → Role → TopicChecks → Config → List Bytes → ℕ × Config
line_proc b role tc cfg [] = (0, cfg)
line_proc b role tc cfg (arg ∷ []) = elim (line_step b role tc cfg arg none) [
  | next c ↦ (0, c)
  | next_two c ↦ (0, c)
  | stop rc c ↦ (rc, c)
]
line_proc b role tc cfg (arg ∷ v ∷ rest) = elim (line_step b role tc cfg arg (some v)) [
  | next c ↦ line_proc b role tc c (v ∷ rest)
  | next_two c ↦ line_proc b role tc c rest
  | stop rc c ↦ (rc, c)
]
