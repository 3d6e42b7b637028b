-- ===== src/Client/Owned/Twice.antt =====
-- The block to which client_config_load of src/mqtt/client_shared.cc sets two pointers.
use ktkkl.Base.{
  ℕ, zero, suc, ◌≤◌, ◌&&◌, ◌||◌, not, List, ◌∷◌, Option, none, some, ◌≡◌, refl, sym, ap, ◌∙◌, arith,
  Bytes, Bool-cases, inl, inr, ==_refl,
}
use mathlib.Core.Path.{subst}
use ktkkl.Client.Config.{Config, CStr, heap, client_sub, Build, freed}
use ktkkl.Client.Options.Apply.{TopicChecks}
use ktkkl.Client.Load.{
  Machine, given, or_new, conflict, set_host, set_username, set_password, subscribe_to, fill_topics,
  complete, read_options, client_config_load,
}
use ktkkl.Client.Owned.{total, weight, total_of, total-freed, is_block}

-- A result with a configuration of which `client_config_cleanup` frees block `a` twice.
abbrev FreesTwice : ℕ → Option (ℕ × Config) → Type 0
FreesTwice a none = Unit
FreesTwice a (some (zero, c)) = 2 ≤ total (is_block a) (freed c)
FreesTwice a (some (suc n, c)) = Unit

module _ (a : ℕ) (s : Bytes) (ts : List CStr) where
  shared :
      (c : Config)
      → c.topic ≡ some (heap a s)
      → c.topics ≡ heap a s ∷ ts
      → 2 ≤ total (is_block a) (freed c)
  shared c one many =
      let same = ==_refl a in
      let once : is_block a (heap a s) ≡ 1 = rw same refl in
      let t = ap (weight (is_block a)) one in
      let l = ap (total_of (is_block a)) many in omega (arith, total-freed (is_block a) c)

  subscribe_to-FreesTwice :
      (c : Config) (us : List CStr)
      → us ≡ heap a s ∷ ts
      → c.topics ≡ us
      → c.topic ≡ none
      → FreesTwice a (subscribe_to c us)
  unfolding subscribe_to
  subscribe_to-FreesTwice c us e q n =
      subst (λ vs. FreesTwice a (subscribe_to c vs)) (sym e)
        (shared (record c { topic = or_new c.topic (heap a s) }) (rw n refl) (q ∙ e))

  fill_topics-FreesTwice :
      (c : Config)
      → c.topics ≡ heap a s ∷ ts
      → c.topic ≡ none
      → FreesTwice a (fill_topics client_sub c)
  unfolding fill_topics
  fill_topics-FreesTwice c e n =
      elim (Bool-cases (not c.clean_session && (given c.id_prefix || not (given c.id)))) [
        | inl i ↦ rw i tt
        | inr i ↦ rw i (subscribe_to-FreesTwice c c.topics e refl n)
      ]

  complete-FreesTwice :
      (m : Machine) (b : Build) (r : ℕ × Config)
      → r.1.topics ≡ heap a s ∷ ts
      → r.1.topic ≡ none
      → FreesTwice a (complete m b client_sub r)
  unfolding complete set_host set_username set_password
  complete-FreesTwice m b (suc n, c) e o = tt
  complete-FreesTwice m b (zero, c) e n = elim (Bool-cases (conflict b c)) [
    | inl k ↦ rw k tt
    | inr k ↦ rw k (fill_topics-FreesTwice (set_password (set_username m (set_host c))) e n)
  ]

  -- Where a subscriber's options give topics to subscribe to and none to publish to, and
  -- client_config_load accepts them, client_config_cleanup frees the block of the first topic twice.
  pub topic_freed_twice :
      (m : Machine) (b : Build) (tc : TopicChecks) (args : List Bytes) (c : Config)
      → (read_options m b client_sub tc args).1.topics ≡ heap a s ∷ ts
      → (read_options m b client_sub tc args).1.topic ≡ none
      → client_config_load m b client_sub tc args ≡ some (0, c)
      → 2 ≤ total (is_block a) (freed c)
  unfolding client_config_load
  topic_freed_twice m b tc args c e n ok =
      subst (FreesTwice a) ok (complete-FreesTwice m b (read_options m b client_sub tc args) e n)
