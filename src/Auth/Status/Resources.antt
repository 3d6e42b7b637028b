-- ===== src/Auth/Status/Resources.antt =====
-- What the two functions leave behind: connections, query results, messages.
use ktkkl.Base.{
  ℕ, ◌+◌, ◌<◌, [], ◌∷◌, List, Option, none, some, ◌≡◌, refl, ◌⊎◌, inl, inr, arith, Bytes,
  Option-cases,
}
use ktkkl.Auth.Services.{Services, State, M, Event, popped, executed, held, uncleared, sent}
use ktkkl.Auth.Kafka.Delivery.{FullFor, Handed, final_answer, kafka_send_total}
use ktkkl.Auth.Status.{
  filled, reset_query, address_query, expire_query, online_message, on_client_online, run_updates,
  update_client_status,
}

-- The statements that were executed, with their connections, the latest first.
abbrev pub statements : List Event → List (ℕ × Bytes)
statements [] = []
statements (executed c sql ∷ l) = (c, sql) ∷ statements l
statements (_ ∷ l) = statements l

abbrev after : {W : Type 0} → M W (Unit {0}) → State W → State W
after m s = elim (m s) [ none ↦ s | some (_, s') ↦ s' ]

module _ {W : Type 0} (sv : Services W) where
  pub record Kept (l l' : List Event) : Type 0 where
    pub connections : held l' ≡ held l
    pub payloads : sent l' ≡ sent l

  module _ (uid : ℕ) (token : Bytes) (sd : ℕ) (s : State W) where
    abbrev pub peer_ip : W → Bytes
    peer_ip w = filled (sv.peer_name sd w) []

    -- With a connection at hand, update_client_status runs its three statements on it, gives it back,
    -- and clears one of the three results: two are left on every call.
    pub update_client_status_leaks :
        (c : ℕ) (cs : Bytes) (conn : ℕ)
        → (sv.pop s.world).0 ≡ some conn
        → (s' : State W) × (update_client_status sv uid token (some (c ∷ cs)) sd s ≡ some (tt, s'))
          × (statements s'.log
              ≡ (conn, expire_query uid token (c ∷ cs))
                ∷ (conn, address_query uid (peer_ip (sv.pop s.world).1) (c ∷ cs))
                ∷ (conn, reset_query uid (c ∷ cs))
                ∷ statements s.log)
          × (uncleared s'.log ≡ uncleared s.log + 2)
          × Kept s.log s'.log
    unfolding update_client_status
    update_client_status_leaks c cs conn e = (
      after (run_updates sv conn uid token (c ∷ cs) (peer_ip (sv.pop s.world).1))
          (record { world = (sv.pop s.world).1; log = popped (some conn) ∷ s.log }),
      rw (e, update_client_status),
      refl,
      omega arith,
      record { connections = ground arith; payloads = refl },
    )

    -- Without a client id, or without a connection, update_client_status changes nothing but the pool.
    pub update_client_status_skips :
        (clientid : Option Bytes)
        → ((clientid ≡ none) ⊎ ((clientid ≡ some []) ⊎ ((sv.pop s.world).0 ≡ none)))
        → (s' : State W) × (update_client_status sv uid token clientid sd s ≡ some (tt, s'))
          × (statements s'.log ≡ statements s.log)
          × (uncleared s'.log ≡ uncleared s.log)
          × Kept s.log s'.log
    unfolding update_client_status
    update_client_status_skips none h =
        (s, refl, refl, refl, record { connections = refl; payloads = refl })
    update_client_status_skips (some []) h =
        (s, refl, refl, refl, record { connections = refl; payloads = refl })
    update_client_status_skips (some (c ∷ cs)) (inl h) = cc
    update_client_status_skips (some (c ∷ cs)) (inr (inl h)) = cc
    update_client_status_skips (some (c ∷ cs)) (inr (inr e)) = (
      record { world = (sv.pop s.world).1; log = popped none ∷ s.log },
      rw (e, update_client_status),
      refl,
      refl,
      record { connections = refl; payloads = refl },
    )

    skipped :
        (clientid : Option Bytes)
        → ((clientid ≡ none) ⊎ ((clientid ≡ some []) ⊎ ((sv.pop s.world).0 ≡ none)))
        → (s' : State W) × (update_client_status sv uid token clientid sd s ≡ some (tt, s'))
          × Kept s.log s'.log
    skipped clientid h =
        let (s', ran, _, _, kept) = update_client_status_skips clientid h in (s', ran, kept)

    pub update_client_status_total :
        (clientid : Option Bytes)
        → (s' : State W) × (update_client_status sv uid token clientid sd s ≡ some (tt, s'))
          × Kept s.log s'.log
    update_client_status_total none = skipped none (inl refl)
    update_client_status_total (some []) = skipped (some []) (inr (inl refl))
    update_client_status_total (some (c ∷ cs)) = elim (Option-cases (sv.pop s.world).0) [
      | inl e ↦ skipped (some (c ∷ cs)) (inr (inr e))
      | inr (conn, e) ↦
          let (s', ran, _, _, kept) = update_client_status_leaks c cs conn e in (s', ran, kept)
    ]

    -- The message about a client goes out once, unless Kafka refuses it.
    pub on_client_online_total :
        (fuel k : ℕ) (clientid : Bytes)
        → FullFor sv (sv.serialize (online_message sv uid token clientid sd s.world)) k s.world
        → k < fuel
        → let buf = sv.serialize (online_message sv uid token clientid sd s.world) in
          (s' : State W) × (on_client_online sv fuel uid token clientid sd s ≡ some (tt, s'))
          × Handed sv buf k (final_answer sv buf k s.world) s.log s'.log
    unfolding on_client_online
    on_client_online_total fuel k clientid d h =
        kafka_send_total sv (online_message sv uid token clientid sd s.world) k fuel s d h
