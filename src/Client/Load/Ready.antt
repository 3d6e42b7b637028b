-- ===== src/Client/Load/Ready.antt =====
-- What client_config_load of src/mqtt/client_shared.cc guarantees to the program that goes on with it.
use ktkkl.Base.{
  ℕ, zero, suc, true, false, ◌&&◌, ◌||◌, not, List, [], ◌∷◌, Option, none, some, ◌≡◌, refl, Bytes,
  Bool-cases, inl, inr, arith, ltb, ◌+◌, length,
}
use mathlib.Core.Path.{subst}
use ktkkl.Client.Config.{Config, CStr, text, client_sub, Build}
use ktkkl.Client.Options.Apply.{TopicChecks}
use ktkkl.Client.Load.{
  Machine, given, or_new, conflict, set_host, set_username, set_password, own_topic, subscribe_to,
  fill_topics, complete, read_options, client_config_load,
}

-- Which options need others, and which exclude others: a will's text and its retention need a topic of
-- the will, a certificate needs its key and a key its certificate, a pre-shared key needs an identity
-- and excludes certificates of authorities.
abbrev pub IsConsistent : Build → Config → Type 0
IsConsistent b c =
    (given c.will_payload ≡ true → given c.will_topic ≡ true)
    × (c.will_retain ≡ true → given c.will_topic ≡ true)
    × (b.tls ≡ true → given c.certfile ≡ true → given c.keyfile ≡ true)
    × (b.tls ≡ true → given c.keyfile ≡ true → given c.certfile ≡ true)
    × (b.tls_psk ≡ true → given c.psk ≡ true → given c.cafile ≡ false)
    × (b.tls_psk ≡ true → given c.psk ≡ true → given c.capath ≡ false)
    × (b.tls_psk ≡ true → given c.psk ≡ true → given c.psk_identity ≡ true)

-- What the tests of client_config_load have shown where none of them fired.
conflict-IsConsistent : (b : Build) (c : Config) → conflict b c ≡ false → IsConsistent b c
unfolding conflict
conflict-IsConsistent b c k = (
  (λ h. ground arith),
  (λ h. ground arith),
  (λ t h. ground arith),
  (λ t h. ground arith),
  (λ t h. ground arith),
  (λ t h. ground arith),
  λ t h. ground arith,
)

-- An old session is asked for under an id that was given as such.
abbrev OwnId : Config → Type 0
OwnId c = c.clean_session ≡ false → (given c.id ≡ true) × (given c.id_prefix ≡ false)

-- There is a host, a user name and a password, the options fit one another, a subscriber that wants an
-- old session has an id of its own, there is a topic to publish to and one at least to subscribe to.
pub record IsReady (b : Build) (c : Config) : Type 0 where
  pub host : given c.host ≡ true
  pub username : given c.username ≡ true
  pub password : given c.password ≡ true
  pub consistent : IsConsistent b c
  pub own_id : OwnId c
  pub topic : given c.topic ≡ true
  pub subscribes : (t : CStr) × (ts : List CStr) × (c.topics ≡ t ∷ ts)

-- A result that is ready if it is a success.
abbrev Ready : Build → Option (ℕ × Config) → Type 0
Ready b none = Unit
Ready b (some (zero, c)) = IsReady b c
Ready b (some (suc n, c)) = Unit

clean-OwnId :
    (c : Config)
    → (not c.clean_session && (given c.id_prefix || not (given c.id))) ≡ false
    → OwnId c
clean-OwnId c e s = (ground arith, ground arith)

given-or_new : (o : Option CStr) (d : CStr) → given (or_new o d) ≡ true
given-or_new none d = refl
given-or_new (some p) d = refl

-- What holds before the topics are looked at.
record HasLogin (b : Build) (c : Config) : Type 0 where
  host : given c.host ≡ true
  username : given c.username ≡ true
  password : given c.password ≡ true
  consistent : IsConsistent b c
  own_id : OwnId c

module _ (b : Build) where
  own_topic-Ready : (c : Config) (u : Option CStr) → HasLogin b c → Ready b (own_topic c u)
  unfolding own_topic conflict
  own_topic-Ready c none h = tt
  own_topic-Ready c (some u) h = elim (Bool-cases (ltb 49 (12 + length (text u)))) [
    | inl e ↦ rw e tt
    | inr e ↦ rw e (record {
      host = h.host;
      username = h.username;
      password = h.password;
      consistent = h.consistent;
      own_id = h.own_id;
      topic = given-or_new c.topic _;
      subscribes = (_, [], refl);
    })
  ]

  subscribe_to-Ready :
      (c : Config) (ts : List CStr) → c.topics ≡ ts → HasLogin b c → Ready b (subscribe_to c ts)
  unfolding subscribe_to conflict
  subscribe_to-Ready c [] e h = own_topic-Ready c c.username h
  subscribe_to-Ready c (t ∷ ts) e h = record {
    host = h.host;
    username = h.username;
    password = h.password;
    consistent = h.consistent;
    own_id = h.own_id;
    topic = given-or_new c.topic t;
    subscribes = (t, ts, e);
  }

  fill_topics-Ready :
      (c : Config)
      → given c.host ≡ true
      → given c.username ≡ true
      → given c.password ≡ true
      → IsConsistent b c
      → Ready b (fill_topics client_sub c)
  unfolding fill_topics
  fill_topics-Ready c h u p k =
      elim (Bool-cases (not c.clean_session && (given c.id_prefix || not (given c.id)))) [
        | inl e ↦ rw e tt
        | inr e ↦ rw e (
            subscribe_to-Ready c c.topics refl (record {
              host = h;
              username = u;
              password = p;
              consistent = k;
              own_id = clean-OwnId c e;
            }))
      ]

  complete-Ready : (m : Machine) (r : ℕ × Config) → Ready b (complete m b client_sub r)
  unfolding complete conflict set_host set_username set_password
  complete-Ready m (suc n, c) = tt
  complete-Ready m (zero, c) = elim (Bool-cases (conflict b c)) [
    | inl e ↦ rw e tt
    | inr e ↦ rw e (
        fill_topics-Ready _ (given-or_new c.host _) (given-or_new c.username _)
          (given-or_new c.password _) (conflict-IsConsistent b c e))
  ]

  -- Where client_config_load accepts the options of a subscriber, the configuration is ready: there are a
  -- host, a user name and a password, a text or a retention of the will comes with its topic, under TLS a
  -- certificate with its key and the reverse, under TLS-PSK a pre-shared key with an identity and without
  -- certificates of authorities, an old session is only asked for under an id that -i gave, there is a
  -- topic to publish to, and one at least to subscribe to.
  pub client_config_load-IsReady :
      (m : Machine) (tc : TopicChecks) (args : List Bytes) (c : Config)
      → client_config_load m b client_sub tc args ≡ some (0, c)
      → IsReady b c
  unfolding client_config_load
  client_config_load-IsReady m tc args c e =
      subst (Ready b) e (complete-Ready m (read_options m b client_sub tc args))
