-- ===== src/Client/Options/Append.antt =====
-- client_config_line_proc of src/mqtt/client_shared.cc on arguments that come in two parts.
use ktkkl.Base.{ℕ, List, [], ◌∷◌, ◌++◌, Option, none, some, ◌≡◌, ◌≢◌, refl, Bytes}
use mathlib.Core.Path.{ap}
use ktkkl.Client.Config.{Config, Role, client_pub, client_sub, Build, MsgMode, mode_none, CStr}
use ktkkl.Client.Options.Table.{
  Opt, find_option, table, o_debug, o_insecure, o_quiet, o_srv, o_will_retain, o_count, o_file,
  o_id, o_id_prefix, o_stdin_line, o_message, o_null, o_retain, o_stdin_file, o_filter_out,
  o_disable_clean_session, o_no_eol, o_no_retain, o_verbose, o_help,
}
use ktkkl.Client.Options.Apply.{
  TopicChecks, Step, next, next_two, stop, apply_option, sub_only, pub_only, no_message_yet,
  unless_set,
}
use ktkkl.Client.Options.Valid.{IsValid, Fails}
use ktkkl.Client.Options.Keep.{Keeps, after, one-ne-zero, two-ne-zero, line_step-Keeps}
use ktkkl.Client.Options.Branches.{option-Keeps}
use ktkkl.Client.Options.{line_step, line_proc}

-- Of one branch, on the last argument and on one with a successor: it goes on in the same way, or the
-- first of them returns an error.
abbrev Agrees : Step → Step → Type 0
Agrees (next c) t = t ≡ next c
Agrees (next_two c) t = ⊥
Agrees (stop rc c) t = rc ≢ 0

module _ (cfg : Config) where
  sub_only-Agrees :
      (role : Role) (s t : Step) → Agrees s t → Agrees (sub_only role cfg s) (sub_only role cfg t)
  sub_only-Agrees client_sub s t h = h
  sub_only-Agrees client_pub s t h = one-ne-zero

  pub_only-Agrees :
      (role : Role) (s t : Step) → Agrees s t → Agrees (pub_only role cfg s) (pub_only role cfg t)
  pub_only-Agrees client_pub s t h = h
  pub_only-Agrees client_sub s t h = one-ne-zero

  unless_set-Agrees :
      (o : Option CStr) (s t : Step) → Agrees s t → Agrees (unless_set cfg o s) (unless_set cfg o t)
  unless_set-Agrees none s t h = h
  unless_set-Agrees (some p) s t h = one-ne-zero

  no_message-Agrees :
      (s t : Step) → Agrees s t → Agrees (no_message_yet cfg s) (no_message_yet cfg t)
  no_message-Agrees s t h = go cfg.pub_mode
    where
      go :
          (m : MsgMode)
          → Agrees
              (elim m [ mode_none ↦ s | _ ↦ stop 1 cfg ])
              (elim m [ mode_none ↦ t | _ ↦ stop 1 cfg ])
      go mode_none = h
      go _ = one-ne-zero

module _ (role : Role) (tc : TopicChecks) (cfg : Config) (v : Bytes) where
  option-Agrees :
      (o : Opt) → Agrees (apply_option role tc cfg o none) (apply_option role tc cfg o (some v))
  unfolding apply_option
  option-Agrees o_debug = refl
  option-Agrees o_insecure = refl
  option-Agrees o_quiet = refl
  option-Agrees o_srv = refl
  option-Agrees o_will_retain = refl
  option-Agrees o_help = two-ne-zero
  option-Agrees o_retain = pub_only-Agrees cfg role _ _ refl
  option-Agrees o_disable_clean_session = sub_only-Agrees cfg role _ _ refl
  option-Agrees o_no_eol = sub_only-Agrees cfg role _ _ refl
  option-Agrees o_no_retain = sub_only-Agrees cfg role _ _ refl
  option-Agrees o_verbose = sub_only-Agrees cfg role _ _ refl
  option-Agrees o_stdin_line = pub_only-Agrees cfg role _ _ (no_message-Agrees cfg _ _ refl)
  option-Agrees o_stdin_file = pub_only-Agrees cfg role _ _ (no_message-Agrees cfg _ _ refl)
  option-Agrees o_null = pub_only-Agrees cfg role _ _ (no_message-Agrees cfg _ _ refl)
  option-Agrees o_message =
      pub_only-Agrees cfg role _ _ (no_message-Agrees cfg (stop 1 cfg) _ one-ne-zero)
  option-Agrees o_file =
      pub_only-Agrees cfg role _ _ (no_message-Agrees cfg (stop 1 cfg) _ one-ne-zero)
  option-Agrees o_count = sub_only-Agrees cfg role (stop 1 cfg) _ one-ne-zero
  option-Agrees o_filter_out = sub_only-Agrees cfg role (stop 1 cfg) _ one-ne-zero
  option-Agrees o_id = unless_set-Agrees cfg cfg.id_prefix (stop 1 cfg) _ one-ne-zero
  option-Agrees o_id_prefix = unless_set-Agrees cfg cfg.id (stop 1 cfg) _ one-ne-zero
  option-Agrees _ = one-ne-zero

last-Agrees :
    (s t : Step) (f g : Config → ℕ × Config)
    → Agrees s t
    → (after s (λ c. (0, c)) (λ c. (0, c))).0 ≡ 0
    → after t f g ≡ f (after s (λ c. (0, c)) (λ c. (0, c))).1
last-Agrees (next c) t f g k e = ap (λ t. after t f g) k
last-Agrees (next_two c) t f g k e = absurd k
last-Agrees (stop rc c) t f g k e = absurd (k e)

after-then :
    (s : Step) (f g f' g' h : Config → ℕ × Config)
    → Keeps IsValid Fails s
    → ((c : Config) → IsValid c → (f c).0 ≡ 0 → f' c ≡ h (f c).1)
    → ((c : Config) → IsValid c → (g c).0 ≡ 0 → g' c ≡ h (g c).1)
    → (after s f g).0 ≡ 0
    → after s f' g' ≡ h (after s f g).1
after-then (next c) f g f' g' h k p q e = p c k e
after-then (next_two c) f g f' g' h k p q e = q c k e
after-then (stop rc c) f g f' g' h k p q e = absurd (k e)

module _ (b : Build) (role : Role) (tc : TopicChecks) where
  step-Keeps :
      (cfg : Config)
      → IsValid cfg
      → (arg : Bytes) (value : Option Bytes)
      → Keeps IsValid Fails (line_step b role tc cfg arg value)
  step-Keeps =
      line_step-Keeps IsValid Fails (λ r. r.0 ≡ 0 → IsValid r.1) (λ c v e. v)
        (λ rc c ne e. absurd (ne e)) (λ c v. one-ne-zero) b role tc
        (λ cfg v. option-Keeps role tc cfg v)

  line_step-Agrees :
      (cfg : Config) (arg v : Bytes)
      → Agrees (line_step b role tc cfg arg none) (line_step b role tc cfg arg (some v))
  unfolding line_step
  line_step-Agrees cfg arg v = go (find_option arg (table b))
    where
      go :
          (o : Option Opt)
          → Agrees
              (elim o [ none ↦ stop 1 cfg | some o ↦ apply_option role tc cfg o none ])
              (elim o [ none ↦ stop 1 cfg | some o ↦ apply_option role tc cfg o (some v) ])
      go none = one-ne-zero
      go (some o) = option-Agrees role tc cfg v o

  -- Where client_config_line_proc accepts a first list of arguments on a valid configuration, two lists
  -- one behind the other are processed as the second list on the result of the first: options may be
  -- spread over the lines of the file and the command line as one likes.
  pub line_proc-append :
      (cfg : Config) (args more : List Bytes)
      → IsValid cfg
      → (line_proc b role tc cfg args).0 ≡ 0
      → line_proc b role tc cfg (args ++ more)
        ≡ line_proc b role tc (line_proc b role tc cfg args).1 more
  unfolding line_proc
  line_proc-append cfg [] more v e = refl
  line_proc-append cfg (arg ∷ []) [] v e =
      after-then (line_step b role tc cfg arg none) (λ c. (0, c)) (λ c. (0, c)) (λ c. (0, c))
        (λ c. (0, c)) (λ c. (0, c)) (step-Keeps cfg v arg none) (λ c k d. refl) (λ c k d. refl) e
  line_proc-append cfg (arg ∷ []) (w ∷ more) v e =
      last-Agrees (line_step b role tc cfg arg none) (line_step b role tc cfg arg (some w))
        (λ c. line_proc b role tc c (w ∷ more)) (λ c. line_proc b role tc c more)
        (line_step-Agrees cfg arg w) e
  line_proc-append cfg (arg ∷ w ∷ rest) more v e =
      after-then (line_step b role tc cfg arg (some w)) (λ c. line_proc b role tc c (w ∷ rest))
        (λ c. line_proc b role tc c rest) (λ c. line_proc b role tc c (w ∷ rest ++ more))
        (λ c. line_proc b role tc c (rest ++ more)) (λ c. line_proc b role tc c more)
        (step-Keeps cfg v arg (some w)) (λ c k d. line_proc-append c (w ∷ rest) more k d)
        (λ c k d. line_proc-append c rest more k d) e
