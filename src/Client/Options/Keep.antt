-- ===== src/Client/Options/Keep.antt =====
-- How a property of configurations is kept by client_config_line_proc of src/mqtt/client_shared.cc, if it is
-- by each of its options.
use ktkkl.Base.{
  ℕ, List, [], ◌∷◌, Bool, true, false, Option, none, some, ◌≡◌, ◌≢◌, refl, arith, Bytes,
  if◌then◌else◌,
}
use ktkkl.Client.Config.{Config, CStr, Role, client_pub, client_sub, Build, MsgMode, mode_none}
use ktkkl.Client.Options.Table.{Opt, find_option, table}
use ktkkl.Client.Options.Apply.{
  TopicChecks, Step, next, next_two, stop, with_value, sub_only, pub_only, no_message_yet,
  unless_set, in_range, apply_option,
}
use ktkkl.Client.Options.{line_step, line_proc}

-- A step that goes on leads to a configuration that satisfies P; a return satisfies Q.
abbrev pub Keeps : (Config → Type 0) → (ℕ → Config → Type 0) → Step → Type 0
Keeps P Q (next c) = P c
Keeps P Q (next_two c) = P c
Keeps P Q (stop rc c) = Q rc c

pub one-ne-zero : ◌≢◌ {A = ℕ} 1 0
one-ne-zero h = absurd (omega arith)

pub two-ne-zero : ◌≢◌ {A = ℕ} 2 0
two-ne-zero h = absurd (omega arith)

-- How the parts of a branch keep P.
module _ (P : Config → Type 0) (Q : ℕ → Config → Type 0) (cfg : Config) (bad : Q 1 cfg) where
  pub with_value-Keeps :
      (value : Option Bytes) (f : Bytes → Step)
      → ((s : Bytes) → Keeps P Q (f s))
      → Keeps P Q (with_value cfg value f)
  with_value-Keeps none f h = bad
  with_value-Keeps (some s) f h = h s

  pub sub_only-Keeps : (role : Role) (s : Step) → Keeps P Q s → Keeps P Q (sub_only role cfg s)
  sub_only-Keeps client_sub s h = h
  sub_only-Keeps client_pub s h = bad

  pub pub_only-Keeps : (role : Role) (s : Step) → Keeps P Q s → Keeps P Q (pub_only role cfg s)
  pub_only-Keeps client_pub s h = h
  pub_only-Keeps client_sub s h = bad

  pub unless_set-Keeps :
      (o : Option CStr) (s : Step) → (o ≡ none → Keeps P Q s) → Keeps P Q (unless_set cfg o s)
  unless_set-Keeps none s h = h refl
  unless_set-Keeps (some p) s h = bad

  pub in_range-Keeps : (test : Bool) → (test ≡ false → P cfg) → Keeps P Q (in_range test cfg)
  in_range-Keeps true h = bad
  in_range-Keeps false h = h refl

  pub checked-Keeps :
      (test : Bool) (s : Step) → Keeps P Q s → Keeps P Q (if test then stop 1 cfg else s)
  checked-Keeps true s h = bad
  checked-Keeps false s h = h

  pub no_message-Keeps :
      (s : Step) → (cfg.pub_mode ≡ mode_none → Keeps P Q s) → Keeps P Q (no_message_yet cfg s)
  no_message-Keeps s h = go cfg.pub_mode refl
    where
      go : (m : MsgMode) → cfg.pub_mode ≡ m → Keeps P Q (elim m [ mode_none ↦ s | _ ↦ stop 1 cfg ])
      go mode_none e = h e
      go _ e = bad

-- What follows a step: f after `next`, g after `next_two`.
abbrev pub after : Step → (Config → ℕ × Config) → (Config → ℕ × Config) → ℕ × Config
after s f g = elim s [ next c ↦ f c | next_two c ↦ g c | stop rc c ↦ (rc, c) ]

after_holds :
    (P : Config → Type 0) (Q : ℕ → Config → Type 0) (S : ℕ × Config → Type 0) (s : Step)
    (f g : Config → ℕ × Config)
    → Keeps P Q s
    → ((rc : ℕ) (c : Config) → Q rc c → S (rc, c))
    → ((c : Config) → P c → S (f c))
    → ((c : Config) → P c → S (g c))
    → S (after s f g)
after_holds P Q S (next c) f g k bad hf hg = hf c k
after_holds P Q S (next_two c) f g k bad hf hg = hg c k
after_holds P Q S (stop rc c) f g k bad hf hg = bad rc c k

-- P holds before each step and behind each that goes on, Q where the function returns; S is what follows
-- of a result.
module _ (P : Config → Type 0) (Q : ℕ → Config → Type 0) (S : ℕ × Config → Type 0)
    (good : (c : Config) → P c → S (0, c)) (bad : (rc : ℕ) (c : Config) → Q rc c → S (rc, c))
    (unknown : (c : Config) → P c → Q 1 c) (b : Build) (role : Role) (tc : TopicChecks)
    (keep : (cfg : Config)
      → P cfg
      → (o : Opt) (value : Option Bytes) → Keeps P Q (apply_option role tc cfg o value)) where
  pub line_step-Keeps :
      (cfg : Config)
      → P cfg
      → (arg : Bytes) (value : Option Bytes) → Keeps P Q (line_step b role tc cfg arg value)
  unfolding line_step
  line_step-Keeps cfg v arg value = go (find_option arg (table b))
    where
      go :
          (o : Option Opt)
          → Keeps P Q (elim o [ none ↦ stop 1 cfg | some o ↦ apply_option role tc cfg o value ])
      go none = unknown cfg v
      go (some o) = keep cfg v o value

  pub line_proc_holds :
      (cfg : Config) (args : List Bytes) → P cfg → S (line_proc b role tc cfg args)
  unfolding line_proc
  line_proc_holds cfg [] v = good cfg v
  line_proc_holds cfg (arg ∷ []) v =
      after_holds P Q S (line_step b role tc cfg arg none) _ _ (line_step-Keeps cfg v arg none) bad
        good good
  line_proc_holds cfg (arg ∷ w ∷ rest) v =
      after_holds P Q S (line_step b role tc cfg arg (some w)) _ _
        (line_step-Keeps cfg v arg (some w)) bad (λ c k. line_proc_holds c (w ∷ rest) k)
        (λ c k. line_proc_holds c rest k)
