-- ===== src/Client/Setup/Outcome.antt =====
-- What client_opts_set of src/mqtt/client_shared.cc comes to, whatever the library answers.
use ktkkl.Base.{
  Bool, true, false, ◌&&◌, ◌||◌, List, [], ◌∷◌, ◌++◌, ◌≡◌, refl, ap, All, Bool-cases, inl, inr,
}
use ktkkl.Base.Int.{ℤ, pos}
use ktkkl.Client.Config.{Config, Build}
use ktkkl.Client.Library.{
  Call, Ran, call, lib_cleanup, will_set, username_pw_set, tls_set, tls_insecure_set, tls_psk_set,
  tls_opts_set, max_inflight_messages_set, socks5_set, opts_set_version,
}
use ktkkl.Client.Load.{given}
use ktkkl.Client.Setup.{is_error, unless_failing, set_proxy, client_opts_set}

-- A call that is asked for, in front of others.
abbrev pub when : Bool → Call → List Call → List Call
when true c cs = c ∷ cs
when false c cs = cs

-- The calls that the options ask for.
unfoldable pub wanted : Build → Config → List Call
wanted b c =
    when (given c.will_topic)
      (will_set c.will_topic c.will_payloadlen c.will_payload c.will_qos c.will_retain)
      (when (given c.username) (username_pw_set c.username c.password) (
        when (b.tls && (given c.cafile || given c.capath))
          (tls_set c.cafile c.capath c.certfile c.keyfile)
          (when (b.tls && c.insecure) (tls_insecure_set true) (
            when ((b.tls && b.tls_psk) && given c.psk) (tls_psk_set c.psk c.psk_identity) (
              when (b.tls && (given c.tls_version || given c.ciphers))
                (tls_opts_set 1 c.tls_version c.ciphers)
                (max_inflight_messages_set c.max_inflight
                  ∷ when (b.socks && given c.socks5_host)
                      (socks5_set c.socks5_host c.socks5_port c.socks5_username c.socks5_password)
                      (opts_set_version c.protocol_version ∷ [])))))))

-- The two calls whose results are not looked at.
abbrev pub checked : Call → Bool
checked (max_inflight_messages_set n) = false
checked (opts_set_version v) = false
checked _ = true

module _ (answer : Call → ℤ) where
  -- A call that stops the function.
  abbrev pub Stops : Call → Type 0
  Stops c = (checked c && is_error (answer c)) ≡ true

  abbrev pub Passes : Call → Type 0
  Passes c = (checked c && is_error (answer c)) ≡ false

  -- Either every call was made, none of them stopped the function, and 0 is returned; or the calls up
  -- to the first that fails were made, the library was then cleaned up, and the code is not 0.
  pub data Outcome (cs : List Call) : Ran ℤ → Type 0 where
    done : All Passes cs → Outcome cs (cs, pos 0)
    stopped :
        (before : List Call) (c : Call) (after : List Call) (code : ℤ)
        → cs ≡ before ++ c ∷ after
        → All Passes before
        → Stops c
        → is_error code ≡ true
        → Outcome cs (before ++ c ∷ lib_cleanup ∷ [], code)

  call-Outcome :
      (c : Call) (cs : List Call) (r : Ran ℤ)
      → Passes c
      → Outcome cs r
      → Outcome (c ∷ cs) (call c r)
  call-Outcome c cs r p (done ps) = done (p, ps)
  call-Outcome c cs r p (stopped before d after code e ps s k) =
      stopped (c ∷ before) d after code (ap (◌∷◌ c) e) (p, ps) s k

  unless_failing-Outcome :
      (asked : Bool) (c : Call) (cs : List Call) (r : Ran ℤ)
      → checked c ≡ true
      → Outcome cs r
      → Outcome (when asked c cs) (unless_failing answer asked c r)
  unless_failing-Outcome false c cs r k o = o
  unless_failing-Outcome true c cs r k o = elim (Bool-cases (is_error (answer c))) [
    | inl e ↦ rw e (stopped [] c cs (pos 1) refl tt (rw (k, e) refl) refl)
    | inr e ↦ rw e (call-Outcome c cs r (rw (k, e) refl) o)
  ]

  set_proxy-Outcome :
      (asked : Bool) (c : Call) (cs : List Call) (r : Ran ℤ)
      → checked c ≡ true
      → Outcome cs r
      → Outcome (when asked c cs) (set_proxy answer asked c r)
  set_proxy-Outcome false c cs r k o = o
  set_proxy-Outcome true c cs r k o = elim (Bool-cases (is_error (answer c))) [
    | inl e ↦ rw e (stopped [] c cs (answer c) refl tt (rw (k, e) refl) e)
    | inr e ↦ rw e (call-Outcome c cs r (rw (k, e) refl) o)
  ]

  -- client_opts_set makes the calls that the options ask for, in one order, up to the first of the
  -- checked ones that fails. Where none does, it returns 0; else it cleans up the library, once and as
  -- the last thing, and returns a code other than 0.
  pub client_opts_set-Outcome :
      (b : Build) (c : Config) → Outcome (wanted b c) (client_opts_set answer b c)
  unfolding client_opts_set wanted
  client_opts_set-Outcome b c =
      unless_failing-Outcome (given c.will_topic)
        (will_set c.will_topic c.will_payloadlen c.will_payload c.will_qos c.will_retain) _ _ refl
        (unless_failing-Outcome (given c.username) (username_pw_set c.username c.password) _ _ refl
          (unless_failing-Outcome (b.tls && (given c.cafile || given c.capath))
            (tls_set c.cafile c.capath c.certfile c.keyfile) _ _ refl
            (unless_failing-Outcome (b.tls && c.insecure) (tls_insecure_set true) _ _ refl (
              unless_failing-Outcome ((b.tls && b.tls_psk) && given c.psk)
                (tls_psk_set c.psk c.psk_identity) _ _ refl
                (unless_failing-Outcome (b.tls && (given c.tls_version || given c.ciphers))
                  (tls_opts_set 1 c.tls_version c.ciphers) _ _ refl
                  (call-Outcome (max_inflight_messages_set c.max_inflight) _ _ refl (
                    set_proxy-Outcome (b.socks && given c.socks5_host)
                      (socks5_set c.socks5_host c.socks5_port c.socks5_username c.socks5_password) _
                      _ refl
                      (call-Outcome (opts_set_version c.protocol_version) [] ([], pos 0) refl
                        (done tt)))))))))
