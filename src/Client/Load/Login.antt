-- ===== src/Client/Load/Login.antt =====
-- Who gives a user name and a password as the last options: what client_config_load of
-- src/mqtt/client_shared.cc makes of them, and what mosquitto_auth_connect_check of
-- src/mqtt/auth_plugin.cc says to it.
use ktkkl.Base.{
  ℕ, zero, suc, ◌≤◌, Bool, true, false, List, [], ◌∷◌, ◌++◌, Option, none, some, ◌≡◌, refl, sym, ap,
  ◌∙◌, inl, inr, arith, Bytes, codes, Bool-cases,
}
use mathlib.Core.Path.{subst}
use ktkkl.Client.Config.{Config, CStr, strdup, Role, Build, init_config}
use ktkkl.Client.Options.{line_proc}
use ktkkl.Client.Options.Table.{find_option, table, o_username, o_password}
use ktkkl.Client.Options.Apply.{TopicChecks, apply_option}
use ktkkl.Client.Options.Words.{line_proc_none, line_proc_two}
use ktkkl.Client.Options.Append.{line_proc-append}
use ktkkl.Client.Load.{
  Machine, read_options, load_file, conflict, set_host, set_username, set_password, or_new,
  complete, client_config_load,
}
use ktkkl.Client.Load.Invariant.{load_file-IsValid}
use ktkkl.Client.Load.Lines.{then_part-zero, read_options-load_file}
use ktkkl.Client.Load.Guest.{text_of, HasLogin, LoginAfter, fill_topics-LoginAfter, code_of}
use ktkkl.Auth.Uid.{get_uid}
use ktkkl.Auth.Services.{Services, State}
use ktkkl.Auth.Status.{online_message}
use ktkkl.Auth.Connect.{connect_check}
use ktkkl.Auth.Connect.Admission.{Admitted, Decides, DrainsWithin, connect_check-Decides}

abbrev pub login_words : Bytes → Bytes → List Bytes
login_words un pw = codes "-u" ∷ un ∷ codes "-P" ∷ pw ∷ []

abbrev Found : Build → Type 0
Found b =
    (find_option (codes "-u") (table b) ≡ some o_username)
    × (find_option (codes "-P") (table b) ≡ some o_password)

login-Found : (b : Build) → Found b
unfolding find_option table
login-Found b = go b.tls b.tls_psk b.socks b.srv
  where
    go :
        (t p s r : Bool)
        → Found (let b : Build = record { tls = t; tls_psk = p; socks = s; srv = r } in b)
    go true true true true = (refl, refl)
    go true true true false = (refl, refl)
    go true true false true = (refl, refl)
    go true true false false = (refl, refl)
    go true false true true = (refl, refl)
    go true false true false = (refl, refl)
    go true false false true = (refl, refl)
    go true false false false = (refl, refl)
    go false true true true = (refl, refl)
    go false true true false = (refl, refl)
    go false true false true = (refl, refl)
    go false true false false = (refl, refl)
    go false false true true = (refl, refl)
    go false false true false = (refl, refl)
    go false false false true = (refl, refl)
    go false false false false = (refl, refl)

filled_login :
    (m : Machine) (un pw : Bytes) (c : Config)
    → HasLogin un pw c
    → HasLogin un pw (set_password (set_username m (set_host c)))
unfolding set_password set_username set_host
filled_login m un pw c (u, p) = (go c.username _ u, go c.password _ p)
  where
    go :
        {t : Bytes} (o : Option CStr) (d : CStr)
        → text_of o ≡ some t
        → text_of (or_new o d) ≡ some t
    go none d e = cc
    go (some q) d e = e

complete_login :
    (m : Machine) (b : Build) (role : Role) (un pw : Bytes) (r : ℕ × Config) (c : Config)
    → complete m b role r ≡ some (0, c)
    → HasLogin un pw r.1
    → HasLogin un pw c
unfolding complete
complete_login m b role un pw (suc n, d) c e h = absurd (let k = ap code_of e in omega arith)
complete_login m b role un pw (zero, d) c e h = elim (Bool-cases (conflict b d)) [
  | inl k ↦ absurd (let q = ap code_of (rw k at e) in omega arith)
  | inr k ↦
      subst (LoginAfter un pw) (rw k at e)
        (fill_topics-LoginAfter un pw role _ (filled_login m un pw d h))
]

module _ (b : Build) (role : Role) (tc : TopicChecks) where
  line_proc_login :
      (cfg : Config) (un pw : Bytes)
      → HasLogin un pw (line_proc b role tc cfg (login_words un pw)).1
  unfolding apply_option
  line_proc_login cfg un pw =
      let (u, p) = login-Found b in
      let named : Config = record cfg { username = some (strdup cfg un); next = suc cfg.next } in
      let worded : Config = record named {
        password = some (strdup named pw);
        next = suc named.next;
      } in
      subst (λ r. HasLogin un pw r.1)
        (sym (
          line_proc_two b role tc cfg named (codes "-u") un (codes "-P" ∷ pw ∷ []) o_username u refl
          ∙ (line_proc_two b role tc named worded (codes "-P") pw [] o_password p refl
              ∙ line_proc_none b role tc worded)))
        (refl, refl)

  read_options_login :
      (m : Machine) (args : List Bytes) (un pw : Bytes)
      → (read_options m b role tc args).0 ≡ 0
      → HasLogin un pw (read_options m b role tc (args ++ login_words un pw)).1
  unfolding read_options
  read_options_login m args un pw k =
      let (loaded, same) =
        then_part-zero (load_file m b role tc init_config) (λ c. line_proc b role tc c args) k in
      let start = (load_file m b role tc init_config).1 in
      let accepted : (line_proc b role tc start args).0 ≡ 0 = sym (ap (λ r. r.0) same) ∙ k in
      subst (λ r. HasLogin un pw r.1)
        (sym (
          read_options-load_file b role tc m (args ++ login_words un pw) loaded
          ∙ line_proc-append b role tc start args (login_words un pw)
              (load_file-IsValid b role tc m loaded) accepted))
        (line_proc_login (line_proc b role tc start args).1 un pw)

module _ {W : Type 0} (sv : Services W) (n fuel sd : ℕ) (clientid : Bytes) where
  -- Where options that are accepted are followed by -u and -P, a client whose configuration
  -- client_config_load returns with success is let in by the plugin exactly if this user name and this
  -- password are admitted, whatever the options before them and the default file said. Hypothesis: the
  -- producer's queue is full for fewer calls than the fuel.
  pub last_login :
      (m : Machine) (b : Build) (role : Role) (tc : TopicChecks) (args : List Bytes) (un pw : Bytes)
      (c : Config)
      → (read_options m b role tc args).0 ≡ 0
      → client_config_load m b role tc (args ++ login_words un pw) ≡ some (0, c)
      → DrainsWithin sv n
      → n ≤ fuel
      → (s : State W)
      → Decides sv
          (Admitted sv un pw s.world)
          (online_message sv (get_uid un) pw clientid sd)
          s
          (connect_check sv fuel (text_of c.username) (text_of c.password) (some clientid) sd)
  unfolding client_config_load
  last_login m b role tc args un pw c ok e drains enough s =
      let (name, word) =
        complete_login m b role un pw (read_options m b role tc (args ++ login_words un pw)) c e
          (read_options_login b role tc m args un pw ok) in
      rw (name, word) (connect_check-Decides sv n fuel drains enough pw clientid sd un s)
