-- ===== src/Client/Load/Guest.antt =====
-- Who gives neither user name nor password: what client_config_load of src/mqtt/client_shared.cc fills
-- in, and what mosquitto_auth_connect_check of src/mqtt/auth_plugin.cc says to it.
use ktkkl.Base.{
  ℕ, zero, suc, ◌+◌, ◌^◌, ◌<◌, ◌≤◌, true, ◌&&◌, ◌||◌, not, List, [], ◌∷◌, Option, none, some, ◌≡◌,
  refl, inl, inr, arith, Bytes, codes, Bool-cases, length, ltb, ◌∙◌,
}
use ktkkl.Base.Int.{pos, signed64, leb_ℤ}
use ktkkl.Libc.{show}
use ktkkl.Client.Config.{Config, CStr, text, Role, client_pub, client_sub, Build}
use ktkkl.Client.Options.Apply.{TopicChecks}
use ktkkl.Client.Load.{
  Machine, given, read_options, conflict, set_host, set_username, set_password, guest_uid,
  fill_topics, own_topic, subscribe_to, complete, client_config_load,
}
use mathlib.Core.Path.{ap, subst}
use ktkkl.Auth.Uid.{get_uid}
use ktkkl.Auth.Uid.Value.{get_uid-show}
use ktkkl.Auth.Services.{Services, State}
use ktkkl.Auth.Connect.{success, connect_check, anon_uid_base}
use ktkkl.Auth.Connect.Admission.{guest, DrainsWithin, connect_check-Decides}

-- The text of a pointer.
abbrev pub text_of : Option CStr → Option Bytes
text_of none = none
text_of (some p) = some (text p)

-- A configuration with this user name and this password.
abbrev pub HasLogin : Bytes → Bytes → Config → Type 0
HasLogin un pw c = (text_of c.username ≡ some un) × (text_of c.password ≡ some pw)

-- The result, where it is a configuration, has them.
abbrev pub LoginAfter : Bytes → Bytes → Option (ℕ × Config) → Type 0
LoginAfter un pw none = ◌≡◌ {A = ℕ} 0 0
LoginAfter un pw (some (rc, c)) = HasLogin un pw c

module _ (un pw : Bytes) where
  own_topic-LoginAfter :
      (c : Config) (u : Option CStr) → HasLogin un pw c → LoginAfter un pw (own_topic c u)
  unfolding own_topic
  own_topic-LoginAfter c none h = refl
  own_topic-LoginAfter c (some u) h = elim (Bool-cases (ltb 49 (12 + length (text u)))) [
    | inl e ↦ rw e refl
    | inr e ↦ rw e h
  ]

  subscribe_to-LoginAfter :
      (c : Config) (ts : List CStr) → HasLogin un pw c → LoginAfter un pw (subscribe_to c ts)
  unfolding subscribe_to
  subscribe_to-LoginAfter c [] h = own_topic-LoginAfter c c.username h
  subscribe_to-LoginAfter c (t ∷ ts) h = h

  pub fill_topics-LoginAfter :
      (role : Role) (c : Config) → HasLogin un pw c → LoginAfter un pw (fill_topics role c)
  unfolding fill_topics
  fill_topics-LoginAfter client_pub c h = h
  fill_topics-LoginAfter client_sub c h =
      elim (Bool-cases (not c.clean_session && (given c.id_prefix || not (given c.id)))) [
        | inl e ↦ rw e h
        | inr e ↦ rw e (subscribe_to-LoginAfter c c.topics h)
      ]

filled-HasLogin :
    (m : Machine) (c : Config)
    → c.username ≡ none
    → c.password ≡ none
    → HasLogin (show (guest_uid m)) (codes "codein.tv") (set_password (set_username m (set_host c)))
unfolding set_password set_username set_host
filled-HasLogin m c u p = (rw u refl, rw p refl)

abbrev pub code_of : Option (ℕ × Config) → ℕ
code_of none = 0
code_of (some r) = r.0

-- A success of what follows the options means that they gave one.
complete-HasLogin :
    (m : Machine) (b : Build) (role : Role) (r : ℕ × Config) (c : Config)
    → complete m b role r ≡ some (0, c)
    → r.1.username ≡ none
    → r.1.password ≡ none
    → HasLogin (show (guest_uid m)) (codes "codein.tv") c
unfolding complete
complete-HasLogin m b role (suc n, d) c e u p = absurd (let k = ap code_of e in omega arith)
complete-HasLogin m b role (zero, d) c e u p = elim (Bool-cases (conflict b d)) [
  | inl k ↦ absurd (let q = ap code_of (rw k at e) in omega arith)
  | inr k ↦
      subst (LoginAfter (show (guest_uid m)) (codes "codein.tv")) (rw k at e)
        (fill_topics-LoginAfter _ _ role _ (filled-HasLogin m d u p))
]

guest_uid_big :
    (m : Machine)
    → m.lrand48 < 2 ^ 31
    → leb_ℤ (pos anon_uid_base) (signed64 (get_uid (show (guest_uid m)))) ≡ true
guest_uid_big m h = rw (get_uid-show (guest_uid m) (omega arith)) (ground arith)

module _ {W : Type 0} (sv : Services W) (n fuel sd : ℕ) (clientid : Bytes) where
  -- Where the options give neither a user name nor a password, a configuration that client_config_load
  -- returns with success is let in by the plugin, under whatever client id. Hypotheses: lrand48 returns
  -- less than 2 ^ 31, and the producer's queue is full for fewer calls than the fuel.
  pub guest_login :
      (m : Machine) (b : Build) (role : Role) (tc : TopicChecks) (args : List Bytes) (c : Config)
      → client_config_load m b role tc args ≡ some (0, c)
      → (read_options m b role tc args).1.username ≡ none
      → (read_options m b role tc args).1.password ≡ none
      → m.lrand48 < 2 ^ 31
      → DrainsWithin sv n
      → n ≤ fuel
      → (s : State W)
      → (s' : State W) × (connect_check sv fuel
            (text_of c.username)
            (text_of c.password)
            (some clientid)
            sd
            s
          ≡ some (success, s'))
  unfolding client_config_load
  guest_login m b role tc args c e u p small drains enough s =
      let (name, word) = complete-HasLogin m b role (read_options m b role tc args) c e u p in
      let (rc, s', run, decided) =
        connect_check-Decides sv n fuel drains enough (codes "codein.tv") clientid sd
          (show (guest_uid m)) s in
      (
        s',
        rw (name, word)
            (run ∙ ap (λ r. some (r, s')) (decided.verdict.1 (guest (guest_uid_big m small) refl))),
      )
