-- ===== src/Client/Load/Invariant.antt =====
-- What client_config_load of src/mqtt/client_shared.cc returns, whatever the lines of the file and the
-- arguments are.
use ktkkl.Base.{
  ℕ, zero, suc, List, [], ◌∷◌, Option, none, some, ◌≡◌, refl, inl, inr, Bytes, Bool-cases,
}
use ktkkl.Client.Config.{Config, Role, Build, init_config}
use ktkkl.Client.Options.{line_proc}
use ktkkl.Client.Options.Apply.{TopicChecks}
use ktkkl.Client.Options.Valid.{IsValid, init_config-IsValid}
use ktkkl.Client.Options.Invariant.{line_proc-IsValid}
use ktkkl.Client.Load.{
  Machine, default_file, load_line, load_lines, load_file, read_options, is_comment, args_of,
}

module _ (P : Config → Type 0) (S : ℕ × Config → Type 0) (good : (c : Config) → P c → S (0, c))
    (back : (c : Config) → S (0, c) → P c) (first : P init_config) (b : Build) (role : Role)
    (tc : TopicChecks)
    (proc : (cfg : Config) (args : List Bytes) → P cfg → S (line_proc b role tc cfg args)) where
  load_line_holds : (c : Config) (line : Bytes) → P c → S (load_line b role tc c line)
  unfolding load_line
  load_line_holds c line v = elim (Bool-cases (is_comment line)) [
    | inl e ↦ rw e (good c v)
    | inr e ↦ rw e (go (args_of line))
  ]
    where
      go :
          (o : Option (List Bytes))
          → S (elim o [ none ↦ (0, c) | some args ↦ line_proc b role tc c args ])
      go none = good c v
      go (some args) = proc c args v

  -- Two parts, the second on the configuration of the first if that is a success.
  then_holds :
      (r : ℕ × Config) (f : Config → ℕ × Config)
      → S r
      → ((c : Config) → P c → S (f c))
      → S (elim r.0 [ zero ↦ f r.1 | suc n ↦ (suc n, r.1) ])
  then_holds (zero, c) f h k = k c (back c h)
  then_holds (suc n, c) f h k = h

  load_lines_holds : (lines : List Bytes) (c : Config) → P c → S (load_lines b role tc c lines)
  unfolding load_lines
  load_lines_holds [] c v = good c v
  load_lines_holds (line ∷ lines) c v =
      then_holds (load_line b role tc c line) (λ d. load_lines b role tc d lines)
        (load_line_holds c line v) (λ d w. load_lines_holds lines d w)

  pub load_file_holds : (m : Machine) (c : Config) → P c → S (load_file m b role tc c)
  unfolding load_file
  load_file_holds m c v = go (default_file m role)
    where
      opened :
          (o : Option (List Bytes))
          → S (elim o [ none ↦ (0, c) | some lines ↦ load_lines b role tc c lines ])
      opened none = good c v
      opened (some lines) = load_lines_holds lines c v

      go :
          (o : Option Bytes)
          → S (elim o [
            | none ↦ (0, c)
            | some loc ↦ elim (m.open_lines loc) [
              | none ↦ (0, c)
              | some lines ↦ load_lines b role tc c lines
            ]
          ])
      go none = good c v
      go (some loc) = opened (m.open_lines loc)

  pub read_options_holds : (m : Machine) (args : List Bytes) → S (read_options m b role tc args)
  unfolding read_options
  read_options_holds m args =
      then_holds (load_file m b role tc init_config) (λ c. line_proc b role tc c args)
        (load_file_holds m init_config first) (λ c v. proc c args v)

module _ (b : Build) (role : Role) (tc : TopicChecks) where
  -- Whatever the default file and the command line hold: if all of it is accepted, the configuration is
  -- valid.
  pub read_options-IsValid :
      (m : Machine) (args : List Bytes)
      → (read_options m b role tc args).0 ≡ 0
      → IsValid (read_options m b role tc args).1
  read_options-IsValid =
      read_options_holds IsValid (λ r. r.0 ≡ 0 → IsValid r.1) (λ c v e. v) (λ c h. h refl)
        init_config-IsValid b role tc (line_proc-IsValid b role tc)

  pub load_file-IsValid :
      (m : Machine)
      → (load_file m b role tc init_config).0 ≡ 0
      → IsValid (load_file m b role tc init_config).1
  load_file-IsValid m =
      load_file_holds IsValid (λ r. r.0 ≡ 0 → IsValid r.1) (λ c v e. v) (λ c h. h refl)
        init_config-IsValid b role tc (line_proc-IsValid b role tc) m init_config
        init_config-IsValid
