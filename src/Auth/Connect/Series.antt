-- ===== src/Auth/Connect/Series.antt =====
-- A series of logins that the broker hands to mosquitto_auth_connect_check of src/mqtt/auth_plugin.cc,
-- while the world of the plugin changes between them.
use ktkkl.Base.{
  ℕ, ◌≤◌, List, [], ◌∷◌, ◌++◌, Option, none, some, ◌≡◌, ◌≢◌, refl, ◌∙◌, ap, inl, inr, Bytes,
}
use mathlib.Core.Path.{subst}
use ktkkl.Auth.Uid.{minus_one, get_uid}
use ktkkl.Auth.Services.{Services, State, M, MqttStatus, held, sent}
use ktkkl.Auth.Status.{online_message}
use ktkkl.Auth.Connect.{MosqErr, success, auth, connect_check}
use ktkkl.Auth.Connect.Admission.{DrainsWithin, Told, connect_check-Decides}

-- What the broker passes of one client: pointers that may be null, and the socket.
pub record Attempt : Type 0 where
  pub username : Option Bytes
  pub password : Option Bytes
  pub clientid : Option Bytes
  pub sd : ℕ

abbrev pub client : Option Bytes → Option Bytes → Option Bytes → ℕ → Attempt
client u p c sd = record { username = u; password = p; clientid = c; sd = sd }

module _ {W : Type 0} (sv : Services W) (fuel : ℕ) where
  abbrev pub check : Attempt → M W MosqErr
  check a = connect_check sv fuel a.username a.password a.clientid a.sd

  -- The attempts and their answers, the latest first.
  pub data Served (s : State W) : List (Attempt × MosqErr) → State W → Type 0 where
    idle : Served s [] s
    meanwhile :
        (l : List (Attempt × MosqErr)) (s' : State W) (w : W)
        → Served s l s'
        → Served s l (record s' { world = w })
    attempt :
        (l : List (Attempt × MosqErr)) (s' s'' : State W) (a : Attempt) (rc : MosqErr)
        → Served s l s'
        → check a s' ≡ some (rc, s'')
        → Served s ((a, rc) ∷ l) s''

  abbrev pub message_of : Bytes → Bytes → Bytes → ℕ → W → MqttStatus
  message_of un pw cid sd w = online_message sv (get_uid un) pw cid sd w

  -- Messages that tell, in the order of the attempts, of users who were let in.
  pub data Reports : List (Attempt × MosqErr) → List Bytes → Type 0 where
    nobody : Reports [] []
    silent :
        (p : Attempt × MosqErr) (l : List (Attempt × MosqErr)) (bs : List Bytes)
        → Reports l bs
        → Reports (p ∷ l) bs
    reported :
        (un pw cid : Bytes) (sd : ℕ) (w : W) (l : List (Attempt × MosqErr)) (bs : List Bytes)
        → get_uid un ≢ minus_one
        → Reports l bs
        → Reports
            ((client (some un) (some pw) (some cid) sd, success) ∷ l)
            (sv.serialize (message_of un pw cid sd w) ∷ bs)

  -- What a series leaves: no connection is kept, and Kafka was told of some of the users let in.
  pub record Account (s : State W) (l : List (Attempt × MosqErr)) (s' : State W) : Type 0 where
    pub connections : held s'.log ≡ held s.log
    pub new_payloads : List Bytes
    pub payloads : sent s'.log ≡ new_payloads ++ sent s.log
    pub reports : Reports l new_payloads

  -- The state and the answer of a call that returned.
  abbrev Accounted :
      State W → Attempt → List (Attempt × MosqErr) → Option (MosqErr × State W) → Type 0
  Accounted s a l none = Unit
  Accounted s a l (some (rc, s')) = Account s ((a, rc) ∷ l) s'

  quiet :
      (s : State W) (a : Attempt) (l : List (Attempt × MosqErr)) (rc : MosqErr) (s' s'' : State W)
      → Account s l s'
      → held s''.log ≡ held s'.log
      → sent s''.log ≡ sent s'.log
      → Account s ((a, rc) ∷ l) s''
  quiet s a l rc s' s'' acc h e = record {
    connections = h ∙ acc.connections;
    new_payloads = acc.new_payloads;
    payloads = e ∙ acc.payloads;
    reports = silent (a, rc) l acc.new_payloads acc.reports;
  }

  module _ (n : ℕ) (drains : DrainsWithin sv n) (enough : n ≤ fuel) (s : State W) where
    client-Account :
        (un pw cid : Bytes) (sd : ℕ) (l : List (Attempt × MosqErr)) (s' : State W)
        → Account s l s'
        → let a = client (some un) (some pw) (some cid) sd in Accounted s a l (check a s')
    unfolding online_message
    client-Account un pw cid sd l s' acc =
        let (rc, s'', ran, d) = connect_check-Decides sv n fuel drains enough pw cid sd un s' in
        rw ran (go rc s'' d.connections d.told)
      where
        go :
            (rc : MosqErr) (s'' : State W)
            → held s''.log ≡ held s'.log
            → Told sv (message_of un pw cid sd) rc (sent s'.log) (sent s''.log)
            → Account s ((client (some un) (some pw) (some cid) sd, rc) ∷ l) s''
        go rc s'' h (inl e) = quiet s _ l rc s' s'' acc h e
        go success s'' h (inr (e, w, ne, told)) = record {
          connections = h ∙ acc.connections;
          new_payloads = sv.serialize (message_of un pw cid sd w) ∷ acc.new_payloads;
          payloads = told ∙ ap (◌∷◌ (sv.serialize (message_of un pw cid sd w))) acc.payloads;
          reports = reported un pw cid sd w l acc.new_payloads ne acc.reports;
        }
        go _ s'' h (inr (e, w, ne, told)) = cc

    attempt-Account :
        (a : Attempt) (l : List (Attempt × MosqErr)) (s' : State W)
        → Account s l s'
        → Accounted s a l (check a s')
    unfolding connect_check
    attempt-Account a l s' acc = go a.username a.password a.clientid
      where
        go :
            (u p c : Option Bytes)
            → Accounted s (client u p c a.sd) l (check (client u p c a.sd) s')
        go (some un) (some pw) (some cid) = client-Account un pw cid a.sd l s' acc
        go none p c = quiet s _ l auth s' s' acc refl refl
        go (some un) none c = quiet s _ l auth s' s' acc refl refl
        go (some un) (some pw) none = quiet s _ l auth s' s' acc refl refl

    -- Whatever clients log in, one after another and with any pointers null, and however the world of the
    -- plugin changes between them: behind the series as many connections are borrowed as before, and
    -- what Kafka was told in it are messages of on_client_online, at most one for each attempt, in the
    -- order of the attempts, each for a user id that was let in.
    pub Served-Account :
        {l : List (Attempt × MosqErr)} {s' : State W} → Served s l s' → Account s l s'
    Served-Account idle = record {
      connections = refl;
      new_payloads = [];
      payloads = refl;
      reports = nobody;
    }
    Served-Account (meanwhile l s1 w h) =
        let acc = Served-Account h in
        record {
          connections = acc.connections;
          new_payloads = acc.new_payloads;
          payloads = acc.payloads;
          reports = acc.reports;
        }
    Served-Account (attempt l1 s1 s2 a rc h ran) =
        subst (Accounted s a l1) ran (attempt-Account a l1 s1 (Served-Account h))
