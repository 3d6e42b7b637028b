-- ===== src/Tester/Usage/Known.antt =====
-- What the parser in src/mqtt/client_shared.cc makes of the words that print_usage of src/mqtt/mqttest.cc
-- documents.
use ktkkl.Base.{
  ℕ, Bool, true, false, not, List, [], ◌∷◌, ◌++◌, Option, none, some, ◌≡◌, refl, sym, ap, ◌∙◌, ◌⊎◌,
  inl, inr, Bool-cases, bytes_eq_iff, Bytes, codes, if◌then◌else◌, All,
}
use ktkkl.Client.Config.{Build, Config, init_config, client_sub}
use ktkkl.Client.Options.{line_proc}
use ktkkl.Client.Options.Apply.{
  TopicChecks, apply_option, add_topic, Step, stop, next, next_two, set_version, store_proxy,
}
use ktkkl.Client.Options.Words.{line_proc_one, line_proc_two, line_proc_stop}
use ktkkl.Client.Proxy.{Proxy, whole_url}
use ktkkl.Libc.{atoi, same}
use ktkkl.Client.Options.Table.{
  Opt, find_option, table, o_file, o_stdin_line, o_message, o_null, o_retain, o_stdin_file, o_debug,
  o_help, o_insecure, o_proxy, o_quiet, o_srv, o_will_retain, o_disable_clean_session, o_no_eol,
  o_no_retain, o_verbose, o_topic, o_pub_topic, o_filter_out, o_will_topic,
}
use ktkkl.Tester.Usage.{Version, usage}
use ktkkl.Tester.Usage.Documented.{
  documented, for_publisher, sample, argument_of, is_help, same_args, fits, test, test_all,
  documented_known, not-true, and_true,
}

same_args_lem : (xs ys : List Bytes) → same_args xs ys ≡ true → xs ≡ ys
same_args_lem [] [] e = refl
same_args_lem (x ∷ xs) (y ∷ ys) e =
    let (h, hs) = and_true (same x y) (same_args xs ys) e in
    let first = (bytes_eq_iff x y).0 h in let rest = same_args_lem xs ys hs in cc
same_args_lem [] (y ∷ ys) e = cc
same_args_lem (x ∷ xs) [] e = cc

-- The subscriber's parser, from the default values on.
abbrev pub subscriber : Build → TopicChecks → List Bytes → ℕ × Config
subscriber b tc args = line_proc b client_sub tc init_config args

-- The word with its argument is processed, and the parser goes on behind the two with whatever follows; or
-- the word is --help, and the parser returns the code that asks for the help text.
abbrev pub Usable : Build → TopicChecks → Bytes → Type 0
Usable b tc w =
    ((c : Config) × ((more : List Bytes)
        → subscriber b tc (w ∷ (argument_of w ++ more)) ≡ line_proc b client_sub tc c more))
    ⊎ ((w ≡ codes "--help") × ((more : List Bytes) → (subscriber b tc (w ∷ more)).0 ≡ 2))

checked : (x : Bool) (c d : Config) → x ≡ false → (if x then stop 1 c else next_two d) ≡ next_two d
checked x c d e = rw e refl

accepted_url :
    (o : Option Proxy) (p : Proxy)
    → o ≡ some p
    → (elim o [ none ↦ stop 1 init_config | some p ↦ next_two (store_proxy init_config p) ])
      ≡ next_two (store_proxy init_config p)
accepted_url o p e = rw e refl

module _ (b : Build) (tc : TopicChecks) (sub_ok : tc.sub_invalid (codes "1") ≡ false)
    (pub_ok : tc.pub_invalid (codes "1") ≡ false) where
  abbrev step : Opt → Option Bytes → Step
  step o value = apply_option client_sub tc init_config o value

  -- The step goes on behind the argument, or behind the word if there is none.
  abbrev Accepted : Opt → List Bytes → Type 0
  Accepted o [] = (c : Config) × ((value : Option Bytes) → step o value ≡ next c)
  Accepted o (v ∷ vs) = (vs ≡ []) × (c : Config) × (step o (some v) ≡ next_two c)

  sample-Accepted : (o : Opt) → for_publisher o ≡ false → is_help o ≡ false → Accepted o (sample o)
  unfolding apply_option init_config atoi set_version add_topic store_proxy
  sample-Accepted o_topic h k = (refl, _, checked _ _ _ sub_ok)
  sample-Accepted o_pub_topic h k = (refl, _, checked _ _ _ pub_ok)
  sample-Accepted o_filter_out h k = (refl, _, checked _ _ _ sub_ok)
  sample-Accepted o_will_topic h k = (refl, _, checked _ _ _ pub_ok)
  sample-Accepted o_proxy h k = (refl, _, accepted_url _ _ whole_url)
  sample-Accepted o_help h k = cc
  sample-Accepted o_file h k = cc
  sample-Accepted o_stdin_line h k = cc
  sample-Accepted o_message h k = cc
  sample-Accepted o_null h k = cc
  sample-Accepted o_retain h k = cc
  sample-Accepted o_stdin_file h k = cc
  sample-Accepted o_debug h k = (_, λ v. refl)
  sample-Accepted o_insecure h k = (_, λ v. refl)
  sample-Accepted o_quiet h k = (_, λ v. refl)
  sample-Accepted o_srv h k = (_, λ v. refl)
  sample-Accepted o_will_retain h k = (_, λ v. refl)
  sample-Accepted o_disable_clean_session h k = (_, λ v. refl)
  sample-Accepted o_no_eol h k = (_, λ v. refl)
  sample-Accepted o_no_retain h k = (_, λ v. refl)
  sample-Accepted o_verbose h k = (_, λ v. refl)
  sample-Accepted _ h k = (refl, _, refl)

  Accepted-Usable :
      (w : Bytes) (o : Opt) (args : List Bytes)
      → find_option w (table b) ≡ some o
      → argument_of w ≡ args
      → Accepted o args
      → Usable b tc w
  Accepted-Usable w o [] f e (c, s) = inl (
    c,
    λ more.
        ap (λ a. subscriber b tc (w ∷ (a ++ more))) e
        ∙ line_proc_one b client_sub tc init_config c w more o f s,
  )
  Accepted-Usable w o (v ∷ vs) f e (last, c, s) = inl (
    c,
    λ more.
        ap (λ a. subscriber b tc (w ∷ (a ++ more))) (e ∙ ap (◌∷◌ v) last)
        ∙ line_proc_two b client_sub tc init_config c w v more o f s,
  )

  help_stops :
      (o : Opt) → is_help o ≡ true → (value : Option Bytes) → step o value ≡ stop 2 init_config
  unfolding apply_option
  help_stops o_help h value = refl
  help_stops _ h value = cc

  fits-Usable :
      (w : Bytes) (o : Opt) → find_option w (table b) ≡ some o → fits w o ≡ true → Usable b tc w
  fits-Usable w o f t =
      let (n, t1) = and_true (not (for_publisher o)) _ t in
      let (a, t2) = and_true (same_args (sample o) (argument_of w)) _ t1 in
      elim (Bool-cases (is_help o)) [
        | inr k ↦
            Accepted-Usable w o (sample o) f (sym (same_args_lem (sample o) (argument_of w) a))
              (sample-Accepted o (not-true (for_publisher o) n) k)
        | inl k ↦ inr (
          (bytes_eq_iff w (codes "--help")).0 (rw k at t2),
          λ more.
              ap (λ r. r.0)
                (line_proc_stop b client_sub tc init_config init_config 2 w more o f
                  (help_stops o k)),
        )
      ]

  test-Usable : (w : Bytes) → test b w ≡ true → Usable b tc w
  test-Usable w t = go (find_option w (table b)) refl
    where
      go : (r : Option Opt) → find_option w (table b) ≡ r → Usable b tc w
      go none e = absurd (let z = rw (e, test) at t in cc)
      go (some o) e = fits-Usable w o e (rw (e, test) at t)

  test-All : (ws : List Bytes) → test_all b ws ≡ true → All (Usable b tc) ws
  test-All [] t = tt
  test-All (w ∷ ws) t =
      let (h, hs) = and_true (test b w) (test_all b ws) t in (test-Usable w h, test-All ws hs)

  -- Each word that print_usage documents works as it says, whatever the build and the version: behind the
  -- default values the subscriber's parser takes a switch alone, and any other word with one argument (a
  -- version for -V, a url for --proxy, else the text 1), and goes on with what follows; --help returns
  -- the code that asks for the help text. The hypotheses let the library accept the topic "1".
  pub usage-Usable : (v : Version) → All (Usable b tc) (documented (usage v b))
  usage-Usable v = test-All (documented (usage v b)) (documented_known v b)
