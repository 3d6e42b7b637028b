-- ===== src/Client/Load/Cleanup.antt =====
-- What client_config_cleanup frees after client_config_load, both of src/mqtt/client_shared.cc, has
-- refused a configuration.
use ktkkl.Base.{
  ℕ, zero, suc, ◌||◌, not, List, Option, none, some, true, false, ◌≡◌, refl, arith, Bytes, codes,
  get_elem?,
}
use ktkkl.Client.Config.{Config, literal, client_sub, Build, chars, freed}
use ktkkl.Client.Options.Apply.{TopicChecks}
use ktkkl.Client.Load.{
  Machine, read_options, conflict, given, set_host, set_username, set_password, fill_topics,
  complete, client_config_load,
}

-- Refused with code 1, and the third pointer that is freed is the literal.
abbrev pub FreesLiteral : Option (ℕ × Config) → Type 0
FreesLiteral r =
    (c : Config) × (r ≡ some (1, c))
    × (get_elem? (freed c) 2 ≡ some (chars (some (literal (codes "localhost")))))

complete-FreesLiteral :
    (m : Machine) (b : Build) (r : ℕ × Config)
    → r.0 ≡ 0
    → conflict b r.1 ≡ false
    → r.1.host ≡ none
    → r.1.clean_session ≡ false
    → (given r.1.id_prefix || not (given r.1.id)) ≡ true
    → FreesLiteral (complete m b client_sub r)
unfolding complete set_host set_username set_password fill_topics
complete-FreesLiteral m b (suc n, d) e k h s i = absurd (omega arith)
complete-FreesLiteral m b (zero, d) e k h s i =
    (set_password (set_username m (set_host d)), rw (k, s, i) refl, rw h refl)

-- Where a subscriber's options are accepted by client_config_line_proc and none of the tests on options
-- that belong together fires, but there are -c, no host, and an id prefix or no id, client_config_load
-- refuses them with code 1 after the host was set to a literal; the third pointer that
-- client_config_cleanup frees is then this literal, which no allocation returned.
pub cleanup-FreesLiteral :
    (m : Machine) (b : Build) (tc : TopicChecks) (args : List Bytes)
    → (read_options m b client_sub tc args).0 ≡ 0
    → conflict b (read_options m b client_sub tc args).1 ≡ false
    → (read_options m b client_sub tc args).1.host ≡ none
    → (read_options m b client_sub tc args).1.clean_session ≡ false
    → (given (read_options m b client_sub tc args).1.id_prefix
        || not (given (read_options m b client_sub tc args).1.id))
      ≡ true
    → FreesLiteral (client_config_load m b client_sub tc args)
unfolding client_config_load
cleanup-FreesLiteral m b tc args = complete-FreesLiteral m b (read_options m b client_sub tc args)
