-- ===== src/Auth/Connect/Admission.antt =====
-- Who is let in by mosquitto_auth_connect_check.
use ktkkl.Base.{
  ℕ, zero, suc, ◌≤◌, ◌<◌, true, ◌&&◌, some, ◌≡◌, ◌≢◌, refl, ◌∙◌, ◌↔◌, ◌⊎◌, inl, inr, arith, Bytes,
  codes, List, ◌∷◌, Option, none, bytes_eq_iff, Bool-cases, ◌==◌, ==_iff,
}
use ktkkl.Base.Int.{ℤ, pos, negsuc, signed64, leb_ℤ}
use ktkkl.Libc.{same}
use ktkkl.Auth.Uid.{minus_one, get_uid}
use ktkkl.Auth.Session.{check_token}
use ktkkl.Auth.Session.Decision.{SessionOpen, Checked, check_token_lem}
use ktkkl.Auth.Kafka.Delivery.{FullFor, sent_after}
use mathlib.Core.Path.{subst}
use ktkkl.Auth.Status.{online_message, on_client_online, update_client_status}
use ktkkl.Auth.Status.Resources.{update_client_status_total, on_client_online_total}
use ktkkl.Auth.Services.{
  Services, State, M, MqttStatus, ProduceError, pure, >>=-some, >>-some, held, sent,
}
use ktkkl.Auth.Connect.{
  MosqErr, success, auth, anon_uid_base, service_login, member_login, user_login, connect_check,
}
use ktkkl.Auth.Connect.Service.{
  IsService, service_login_sound, service_login_complete, IsService-get_uid,
}

module _ {W : Type 0} (sv : Services W) where
  -- The user name and the password of a connection that is let in, as the data base stands.
  pub data Admitted (un pw : Bytes) (w : W) : Type 0 where
    service : IsService un pw → Admitted un pw w
    guest :
        leb_ℤ (pos anon_uid_base) (signed64 (get_uid un)) ≡ true
        → pw ≡ codes "codein.tv"
        → Admitted un pw w
    member : get_uid un ≢ minus_one → SessionOpen sv (get_uid un) pw w → Admitted un pw w

  -- Whatever is produced, the queue is full for fewer than `n` calls.
  abbrev pub DrainsWithin : ℕ → Type 0
  DrainsWithin n = (buf : Bytes) (w : W) → (k : ℕ) × (k < n) × FullFor sv buf k w

  -- Kafka is told nothing, or once the message of a user who is let in.
  abbrev pub Told : (W → MqttStatus) → MosqErr → List Bytes → List Bytes → Type 0
  Told msg rc bs bs' =
      (bs' ≡ bs)
      ⊎ ((rc ≡ success) × (w : W) × ((msg w).uid ≢ minus_one) × (bs' ≡ sv.serialize (msg w) ∷ bs))

  -- How a login ends that goes out under the message `msg`.
  pub record Decided (A : Type 0) (msg : W → MqttStatus) (s s' : State W) (rc : MosqErr)
      : Type 0 where
    pub verdict : (rc ≡ success) ↔ A
    pub connections : held s'.log ≡ held s.log
    pub told : Told msg rc (sent s.log) (sent s'.log)

  abbrev pub Decides : Type 0 → (W → MqttStatus) → State W → M W MosqErr → Type 0
  Decides A msg s run =
      (rc : MosqErr) × (s' : State W) × (run s ≡ some (rc, s')) × Decided A msg s s' rc

  module _ (n fuel : ℕ) (drains : DrainsWithin n) (enough : n ≤ fuel) (pw clientid : Bytes)
      (sd : ℕ) where
    abbrev message : ℕ → W → MqttStatus
    message uid w = online_message sv uid pw clientid sd w

    after_answer :
        (uid : ℕ) (w : W) (o : Option ProduceError) (bs : List Bytes)
        → uid ≢ minus_one
        → Told (message uid) success bs (sent_after sv (sv.serialize (message uid w)) o bs)
    unfolding online_message
    after_answer uid w none bs ne = inr (refl, w, ne, refl)
    after_answer uid w (some e) bs ne = inl refl

    online :
        (uid : ℕ) (s : State W)
        → uid ≢ minus_one
        → (s' : State W) × (on_client_online sv fuel uid pw clientid sd s ≡ some (tt, s'))
          × (held s'.log ≡ held s.log)
          × Told (message uid) success (sent s.log) (sent s'.log)
    online uid s ne =
        let buf = sv.serialize (online_message sv uid pw clientid sd s.world) in
        let (k, lt, full) = drains buf s.world in
        let (s', ran, handed) =
          on_client_online_total sv uid pw sd s fuel k clientid full (omega arith) in
        (
          s',
          ran,
          handed.connections,
          rw handed.payload (after_answer uid s.world _ (sent s.log) ne),
        )

    -- What follows on the answer of check_token.
    member_from :
        (uid : ℕ) (s s1 : State W) (rc : ℤ)
        → check_token sv uid pw s ≡ some (rc, s1)
        → Checked sv uid pw s s1 rc
        → uid ≢ minus_one
        → Decides
            (SessionOpen sv uid pw s.world)
            (message uid)
            s
            (member_login sv fuel uid pw clientid sd)
    unfolding member_login
    member_from uid s s1 (pos zero) ran checked ne =
        let (s2, ran2, kept) = update_client_status_total sv uid pw sd s1 (some clientid) in
        let (s3, ran3, same_held, tells) = online uid s2 ne in
        let login_steps : member_login sv fuel uid pw clientid sd s ≡ some (success, s3) =
          >>=-some (check_token sv uid pw) _ s ran
          ∙ >>-some (update_client_status sv uid pw (some clientid) sd) _ s1 ran2
          ∙ >>-some (on_client_online sv fuel uid pw clientid sd) (pure success) s2 ran3 in
        (
          success,
          s3,
          login_steps,
          record {
            verdict = ((λ _. checked.verdict.0 refl), λ _. refl);
            connections = same_held ∙ kept.connections ∙ checked.connections;
            told =
                subst (λ bs. Told (message uid) success bs (sent s3.log))
                  (kept.payloads ∙ checked.payloads) tells;
          },
        )
    member_from uid s s1 (pos (suc n)) ran checked ne = (
      auth,
      s1,
      >>=-some (check_token sv uid pw) _ s ran,
      record {
        verdict = ((λ e. cc), λ o. let e = checked.verdict.1 o in cc);
        connections = checked.connections;
        told = inl checked.payloads;
      },
    )
    member_from uid s s1 (negsuc n) ran checked ne = (
      auth,
      s1,
      >>=-some (check_token sv uid pw) _ s ran,
      record {
        verdict = ((λ e. cc), λ o. let e = checked.verdict.1 o in cc);
        connections = checked.connections;
        told = inl checked.payloads;
      },
    )

    member_login_lem :
        (uid : ℕ) (s : State W)
        → uid ≢ minus_one
        → Decides
            (SessionOpen sv uid pw s.world)
            (message uid)
            s
            (member_login sv fuel uid pw clientid sd)
    member_login_lem uid s ne =
        let (rc, s1, ran, checked) = check_token_lem sv uid pw s in
        member_from uid s s1 rc ran checked ne

    -- A login of a user id, before the id is known to be one.
    UserIn : ℕ → W → Type 0
    UserIn uid w =
        ((leb_ℤ (pos anon_uid_base) (signed64 uid) ≡ true) × (pw ≡ codes "codein.tv"))
        ⊎ SessionOpen sv uid pw w

    user_login_lem :
        (uid : ℕ) (s : State W)
        → uid ≢ minus_one
        → Decides (UserIn uid s.world) (message uid) s (user_login sv fuel uid pw clientid sd)
    unfolding user_login UserIn
    user_login_lem uid s ne =
        elim (Bool-cases
          (leb_ℤ (pos anon_uid_base) (signed64 uid) && same pw (codes "codein.tv"))) [
            | inl t ↦
                let (s', ran, same_held, tells) = online uid s ne in
                (
                  success,
                  s',
                  rw t (>>-some (on_client_online sv fuel uid pw clientid sd) (pure success) s ran),
                  record {
                    verdict = (
                      (λ _.
                          inl
                            (ground arith, (bytes_eq_iff pw (codes "codein.tv")).0 (ground arith))),
                      λ _. refl,
                    );
                    connections = same_held;
                    told = tells;
                  },
                )
            | inr f ↦
                let (rc, s', ran, d) = member_login_lem uid s ne in
                (
                  rc,
                  s',
                  rw f ran,
                  record {
                    verdict = (
                      (λ e. inr (d.verdict.0 e)),
                      λ u. elim u [
                        | inl (big, same_pw) ↦
                            let t = (bytes_eq_iff pw (codes "codein.tv")).1 same_pw in
                            absurd (ground arith)
                        | inr o ↦ d.verdict.1 o
                      ],
                    );
                    connections = d.connections;
                    told = d.told;
                  },
                )
          ]

    not_minus_one : (uid : ℕ) → leb_ℤ (pos anon_uid_base) (signed64 uid) ≡ true → uid ≢ minus_one
    not_minus_one uid h e = ground arith

    Admitted-iff :
        (un : Bytes) (w : W) → get_uid un ≢ minus_one → Admitted un pw w ↔ UserIn (get_uid un) w
    unfolding UserIn
    Admitted-iff un w ne = (there, back)
      where
        there : Admitted un pw w → UserIn (get_uid un) w
        there (service sv_login) = absurd (ne (IsService-get_uid un pw sv_login))
        there (guest big same_pw) = inl (big, same_pw)
        there (member _ o) = inr o

        back : UserIn (get_uid un) w → Admitted un pw w
        back (inl (big, same_pw)) = guest big same_pw
        back (inr o) = member ne o

    Admitted-IsService :
        (un : Bytes) (w : W) → get_uid un ≡ minus_one → Admitted un pw w → IsService un pw
    Admitted-IsService un w e (service sv_login) = sv_login
    Admitted-IsService un w e (guest big _) = absurd (not_minus_one (get_uid un) big e)
    Admitted-IsService un w e (member ne _) = absurd (ne e)

    -- connect_check of three texts returns; it answers `success` exactly to who is admitted, holds on to
    -- no connection, and tells Kafka at most once, of a user it lets in, by the message of
    -- on_client_online. The hypothesis is on the producer's queue: it is full for fewer calls than the
    -- fuel.
    pub connect_check-Decides :
        (un : Bytes) (s : State W)
        → Decides
            (Admitted un pw s.world)
            (message (get_uid un))
            s
            (connect_check sv fuel (some un) (some pw) (some clientid) sd)
    unfolding connect_check
    connect_check-Decides un s = elim (Bool-cases (get_uid un == minus_one)) [
      | inl t ↦
          let is_none = (==_iff (get_uid un) minus_one).0 t in
          (
            service_login un pw,
            s,
            rw t,
            record {
              verdict = (
                (λ e. service (service_login_sound un pw e)),
                λ a. service_login_complete un pw (Admitted-IsService un s.world is_none a),
              );
              connections = refl;
              told = inl refl;
            },
          )
      | inr f ↦
          let is_id : get_uid un ≢ minus_one =
            λ e. let t = (==_iff (get_uid un) minus_one).1 e in cc in
          let (rc, s', ran, d) = user_login_lem (get_uid un) s is_id in
          let iff = Admitted-iff un s.world is_id in
          (
            rc,
            s',
            rw f ran,
            record {
              verdict = ((λ e. iff.1 (d.verdict.0 e)), λ a. d.verdict.1 (iff.0 a));
              connections = d.connections;
              told = d.told;
            },
          )
    ]
