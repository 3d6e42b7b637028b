-- ===== src/Tester/Main/Protocol.antt =====
-- The order in which a program such as src/mqtt/mqttest.cc may call libmosquitto, and how it may end.
use ktkkl.Base.{Bool, true, false, List, [], ◌∷◌, ◌++◌, Option, ◌≡◌, sym, append_assoc, All}
use ktkkl.Base.Int.{ℤ, pos, ltb_ℤ}
use ktkkl.Client.Library.{
  Call, Ran, lib_init, lib_cleanup, new, connect_srv, connect_bind, loop_forever, destroy,
}
use ktkkl.Client.Config.{CStr}
use ktkkl.Client.Setup.{is_error}
use ktkkl.Tester.Main.{Surroundings, then_run}

-- The library is not in use; in use; in use with a handle; with a connected one; cleaned up; cleaned up
-- with a handle that was not destroyed.
pub data Phase : Type 0 where
  outside inside holding connected closed leaked : Phase

-- A call on a handle that keeps it.
abbrev pub is_setting : Call → Bool
is_setting lib_init = false
is_setting lib_cleanup = false
is_setting (new id clean) = false
is_setting (connect_srv h k a) = false
is_setting (connect_bind h p k a) = false
is_setting loop_forever = false
is_setting destroy = false
is_setting _ = true

abbrev pub is_connect : Call → Bool
is_connect (connect_srv h k a) = true
is_connect (connect_bind h p k a) = true
is_connect _ = false

-- The calls that the library allows in a phase, and the phase behind them. Only an answer makes a handle
-- or a connection: mosquitto_new has to succeed, and the code of a connect call must not be an error of
-- the library, which are the numbers above 0.
pub data Legal (e : Surroundings) : Phase → Call → Phase → Type 0 where
  init : Legal e outside lib_init inside
  create :
      (id : Option CStr) (clean : Bool)
      → e.new_succeeds ≡ true
      → Legal e inside (new id clean) holding
  create_failed :
      (id : Option CStr) (clean : Bool)
      → e.new_succeeds ≡ false
      → Legal e inside (new id clean) inside
  setting : (c : Call) → is_setting c ≡ true → Legal e holding c holding
  connect :
      (c : Call)
      → is_connect c ≡ true
      → ltb_ℤ (pos 0) (e.answer c) ≡ false
      → Legal e holding c connected
  connect_failed :
      (c : Call)
      → is_connect c ≡ true
      → ltb_ℤ (pos 0) (e.answer c) ≡ true
      → Legal e holding c holding
  loop : Legal e connected loop_forever holding
  release : Legal e holding destroy inside
  leave : Legal e inside lib_cleanup closed
  abandon : Legal e holding lib_cleanup leaked

pub data Run (e : Surroundings) : Phase → List Call → Phase → Type 0 where
  here : {p : Phase} → Run e p [] p
  next :
      {p q r : Phase} {c : Call} {cs : List Call}
      → Legal e p c q
      → Run e q cs r
      → Run e p (c ∷ cs) r

pub Run-append :
    {e : Surroundings} {p q r : Phase} {xs ys : List Call}
    → Run e p xs q
    → Run e q ys r
    → Run e p (xs ++ ys) r
Run-append here s = s
Run-append (next l t) s = next l (Run-append t s)

-- How a program may end, by its calls, its exit code and the phase that it leaves behind.
pub data Ended (log : List Call) (code : ℤ) : Phase → Type 0 where
  refused : is_error code ≡ true → Ended log code outside
  finished :
      (before : List Call)
      → log ≡ before ++ loop_forever ∷ destroy ∷ lib_cleanup ∷ []
      → Ended log code closed
  failed : is_error code ≡ true → Ended log code closed
  lost : is_error code ≡ true → Ended log code leaked

pub record Ends (e : Surroundings) (p : Phase) (r : Ran ℤ) : Type 0 where
  pub last : Phase
  pub run : Run e p r.0 last
  pub ended : Ended r.0 r.1 last

Ended-append :
    (xs ys : List Call) (code : ℤ) {p : Phase} → Ended ys code p → Ended (xs ++ ys) code p
Ended-append xs ys code (refused e) = refused e
Ended-append xs ys code (finished before e) =
    finished (xs ++ before)
      (rw e (sym (append_assoc xs before (loop_forever ∷ destroy ∷ lib_cleanup ∷ []))))
Ended-append xs ys code (failed e) = failed e
Ended-append xs ys code (lost e) = lost e

-- Calls in front.
pub Ends-then :
    (e : Surroundings) (p q : Phase) (xs : List Call) (r : Ran ℤ)
    → Run e p xs q
    → Ends e q r
    → Ends e p (then_run xs r)
Ends-then e p q xs r s t = record {
  last = t.last;
  run = Run-append s t.run;
  ended = Ended-append xs r.0 r.1 t.ended;
}

pub settings-Run :
    {e : Surroundings} (cs : List Call)
    → All (λ c. is_setting c ≡ true) cs
    → Run e holding cs holding
settings-Run [] s = here
settings-Run (c ∷ cs) (s, ss) = next (setting c s) (settings-Run cs ss)
