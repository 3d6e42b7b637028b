-- ===== src/Client/Owned/Loaded.antt =====
-- What client_config_cleanup of src/mqtt/client_shared.cc frees behind client_config_load, where the
-- options name a host and a topic to publish to, or are refused.
use ktkkl.Base.{
  ℕ, zero, suc, ◌+◌, true, ◌&&◌, ◌||◌, not, List, [], ◌∷◌, ◌++◌, Option, none, some, ◌≡◌, ◌≢◌, refl,
  ap, ◌⊎◌, inl, inr, arith, Bytes, codes, Bool-cases, length, ltb,
}
use mathlib.Core.Path.{subst}
use ktkkl.Libc.{show}
use ktkkl.Client.Config.{Config, CStr, text, Role, client_pub, client_sub, Build}
use ktkkl.Client.Options.Apply.{TopicChecks}
use ktkkl.Client.Load.{
  Machine, given, guest_uid, conflict, set_host, set_username, set_password, own_topic,
  subscribe_to, fill_topics, complete, read_options, client_config_load,
}
use ktkkl.Client.Owned.{IsOwned, unchanged, adds, weight, total_of}
use ktkkl.Client.Owned.Cleanup.{read_options-IsOwned}

-- A result with an owned configuration.
abbrev Returns : Option (ℕ × Config) → Type 0
Returns none = Unit
Returns (some (rc, c)) = IsOwned c

set_host-IsOwned :
    (c : Config) (o : Option CStr) → c.host ≡ o → given o ≡ true → IsOwned c → IsOwned (set_host c)
unfolding set_host
set_host-IsOwned c none e h v = cc
set_host-IsOwned c (some p) e h v = unchanged (rw e refl) refl v

set_username-IsOwned :
    (m : Machine) (c : Config) (o : Option CStr)
    → c.username ≡ o
    → IsOwned c
    → IsOwned (set_username m c)
unfolding set_username
set_username-IsOwned m c (some p) e v = unchanged (rw e refl) (rw e refl) v
set_username-IsOwned m c none e v =
    adds (show (guest_uid m)) (rw e refl) (λ w. let k = ap (weight w) e in rw e (omega arith)) v

set_password-IsOwned :
    (c : Config) (o : Option CStr) → c.password ≡ o → IsOwned c → IsOwned (set_password c)
unfolding set_password
set_password-IsOwned c (some p) e v = unchanged (rw e refl) (rw e refl) v
set_password-IsOwned c none e v =
    adds (codes "codein.tv") (rw e refl) (λ w. let k = ap (weight w) e in rw e (omega arith)) v

own_topic-Returns :
    (c : Config) (u t : Option CStr)
    → c.topics ≡ []
    → c.topic ≡ t
    → given t ≡ true
    → IsOwned c
    → Returns (own_topic c u)
unfolding own_topic
own_topic-Returns c none t l e h v = tt
own_topic-Returns c (some u) none l e h v = cc
own_topic-Returns c (some u) (some t) l e h v = elim (Bool-cases (ltb 49 (12 + length (text u)))) [
  | inl k ↦ rw k tt
  | inr k ↦ rw k (
      adds (codes "codein/live/" ++ text u) (rw e refl)
        (λ w. let a = ap (weight w) e in let b = ap (total_of w) l in rw e (omega arith)) v)
]

subscribe_to-Returns :
    (c : Config) (t : Option CStr) (ts : List CStr)
    → c.topics ≡ ts
    → c.topic ≡ t
    → given t ≡ true
    → IsOwned c
    → Returns (subscribe_to c ts)
unfolding subscribe_to
subscribe_to-Returns c t [] l e h v = own_topic-Returns c c.username t l e h v
subscribe_to-Returns c none (u ∷ us) l e h v = cc
subscribe_to-Returns c (some t) (u ∷ us) l e h v = unchanged (rw e refl) refl v

fill_topics-Returns :
    (role : Role) (c : Config) → given c.topic ≡ true → IsOwned c → Returns (fill_topics role c)
unfolding fill_topics
fill_topics-Returns client_pub c h v = v
fill_topics-Returns client_sub c h v =
    elim (Bool-cases (not c.clean_session && (given c.id_prefix || not (given c.id)))) [
      | inl k ↦ rw k v
      | inr k ↦ rw k (subscribe_to-Returns c c.topic c.topics refl refl h v)
    ]

-- The options were refused, or they name a host and a topic to publish to.
abbrev pub NamesBoth : ℕ × Config → Type 0
NamesBoth r = (r.0 ≢ 0) ⊎ ((given r.1.host ≡ true) × (given r.1.topic ≡ true))

complete-Returns :
    (m : Machine) (b : Build) (role : Role) (r : ℕ × Config)
    → NamesBoth r
    → IsOwned r.1
    → Returns (complete m b role r)
unfolding complete
complete-Returns m b role (suc n, c) h v = v
complete-Returns m b role (zero, c) (inl ne) v = absurd (ne refl)
complete-Returns m b role (zero, c) (inr (host, topic)) v = elim (Bool-cases (conflict b c)) [
  | inl k ↦ rw k v
  | inr k ↦
      let a = set_host-IsOwned c c.host refl host v in
      let d = set_username-IsOwned m (set_host c) (set_host c).username refl a in
      let f =
        set_password-IsOwned (set_username m (set_host c)) (set_username m (set_host c)).password
          refl d in
      rw k (
        fill_topics-Returns role (set_password (set_username m (set_host c))) (same_topic m c topic)
          f)
]
  where
    same_topic :
        (m : Machine) (c : Config)
        → given c.topic ≡ true
        → given (set_password (set_username m (set_host c))).topic ≡ true
    same_topic m c h = h

-- Whatever the default file and the command line hold: where client_config_line_proc does not accept
-- them, or they name a host and a topic to publish to, the strings that client_config_cleanup frees
-- behind client_config_load are blocks of the allocator, and none is freed twice, whether the
-- configuration as a whole is accepted or not.
pub client_config_load-IsOwned :
    (m : Machine) (b : Build) (role : Role) (tc : TopicChecks) (args : List Bytes) (rc : ℕ)
    (c : Config)
    → client_config_load m b role tc args ≡ some (rc, c)
    → NamesBoth (read_options m b role tc args)
    → IsOwned c
unfolding client_config_load
client_config_load-IsOwned m b role tc args rc c e h = subst Returns e (
    complete-Returns m b role (read_options m b role tc args) h
      (read_options-IsOwned b role tc m args))
