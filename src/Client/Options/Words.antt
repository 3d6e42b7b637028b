-- ===== src/Client/Options/Words.antt =====
-- What client_config_line_proc of src/mqtt/client_shared.cc does with its first argument, where the word is
-- known.
use ktkkl.Base.{ℕ, List, [], ◌∷◌, Option, none, some, ◌≡◌, refl, Bytes}
use ktkkl.Client.Config.{Config, Role, Build}
use ktkkl.Client.Options.Table.{Opt, find_option, table}
use ktkkl.Client.Options.Apply.{TopicChecks, next, next_two, stop, apply_option}
use ktkkl.Client.Options.{line_step, line_proc}

module _ (b : Build) (role : Role) (tc : TopicChecks) where
  pub line_proc_none : (c : Config) → line_proc b role tc c [] ≡ (0, c)
  unfolding line_proc
  line_proc_none c = refl

  -- An option with a value.
  pub line_proc_two :
      (cfg c : Config) (arg v : Bytes) (rest : List Bytes) (o : Opt)
      → find_option arg (table b) ≡ some o
      → apply_option role tc cfg o (some v) ≡ next_two c
      → line_proc b role tc cfg (arg ∷ v ∷ rest) ≡ line_proc b role tc c rest
  unfolding line_proc line_step
  line_proc_two cfg c arg v rest o f e = rw (f, e, line_proc, line_step) refl

  -- An option without one.
  pub line_proc_one :
      (cfg c : Config) (arg : Bytes) (rest : List Bytes) (o : Opt)
      → find_option arg (table b) ≡ some o
      → ((value : Option Bytes) → apply_option role tc cfg o value ≡ next c)
      → line_proc b role tc cfg (arg ∷ rest) ≡ line_proc b role tc c rest
  unfolding line_proc line_step
  line_proc_one cfg c arg [] o f e = rw (f, e none, line_proc, line_step) refl
  line_proc_one cfg c arg (v ∷ rest) o f e = rw (f, e (some v), line_proc, line_step) refl

  -- An option that ends the function.
  pub line_proc_stop :
      (cfg c : Config) (rc : ℕ) (arg : Bytes) (rest : List Bytes) (o : Opt)
      → find_option arg (table b) ≡ some o
      → ((value : Option Bytes) → apply_option role tc cfg o value ≡ stop rc c)
      → line_proc b role tc cfg (arg ∷ rest) ≡ (rc, c)
  unfolding line_proc line_step
  line_proc_stop cfg c rc arg [] o f e = rw (f, e none, line_proc, line_step) refl
  line_proc_stop cfg c rc arg (v ∷ rest) o f e = rw (f, e (some v), line_proc, line_step) refl

  -- A word that is none of the options.
  pub line_proc_unknown :
      (cfg : Config) (arg : Bytes) (rest : List Bytes)
      → find_option arg (table b) ≡ none
      → line_proc b role tc cfg (arg ∷ rest) ≡ (1, cfg)
  unfolding line_proc line_step
  line_proc_unknown cfg arg [] f = rw (f, line_proc, line_step) refl
  line_proc_unknown cfg arg (v ∷ rest) f = rw (f, line_proc, line_step) refl
