-- ===== src/Auth/Services.antt =====
-- What src/mqtt/auth_plugin.cc calls and does not implement (the PostgreSQL pool, librdkafka, the
-- generated Kafka message, the clock, the sockets), as a parameter over a world `W` of its own, and
-- the state that the plugin's functions pass on: that world, and a log of the calls made.
use ktkkl.Base.{ℕ, suc, ◌-◌, ◌∷◌, [], ◌≡◌, List, Option, none, some, Bytes, ◌==◌, if◌then◌else◌}

-- ExecStatusType, as far as the code tells its values apart.
pub data ExecStatus : Type 0 where
  tuples_ok command_ok failed : ExecStatus

-- A PGresult as its accessors show it.
pub record PgResult : Type 0 where
  pub status : ExecStatus
  pub ntuples : ℕ
  pub getvalue : ℕ → ℕ → Bytes

-- The error of rd_kafka_produce that rd_kafka_last_error names.
pub data ProduceError : Type 0 where
  queue_full refused : ProduceError

-- kafka_proto::MqttStatus, of type `online`. `uid` is the bit pattern of a `long`.
pub record MqttStatus : Type 0 where
  pub uid : ℕ
  pub token : Bytes
  pub device : Bytes
  pub time_ms : ℕ
  pub endpoint : Bytes

pub data Event : Type 0 where
  popped : Option ℕ → Event
  pushed : ℕ → Event
  executed : ℕ → Bytes → Event
  cleared : Event
  enqueued : Bytes → Event
  produce_failed : ProduceError → Event
  polled : ℕ → Event

pub record Services (W : Type 0) : Type 0 where
  -- PQpool::Pop and Push; a null pointer is `none`.
  pub pop : W → Option ℕ × W
  pub push : ℕ → W → W
  -- PQexec
  pub exec : ℕ → Bytes → W → PgResult × W
  -- time(NULL)
  pub clock : W → ℕ
  -- getpeername and then getnameinfo, as numbers; `none` where one of them fails
  pub peer_name : ℕ → W → Option Bytes
  -- the text that a local array holds before it is written
  pub stack_text : W → Bytes
  -- SerializeToArray
  pub serialize : MqttStatus → Bytes
  -- rd_kafka_produce: no error, or the error
  pub produce : Bytes → W → Option ProduceError × W
  -- rd_kafka_poll, with its timeout in milliseconds
  pub poll : ℕ → W → W

-- The log has the latest call first.
pub record State (W : Type 0) : Type 0 where
  pub world : W
  pub log : List Event

-- `none`: the function has not returned within its fuel.
abbrev pub M : Type 0 → Type 0 → Type 0
M W A = State W → Option (A × State W)

abbrev pub pure : {W A : Type 0} → A → M W A
pure a s = some (a, s)

infixl 5 ◌>>=◌ ◌>>◌
abbrev pub ◌>>=◌ : {W A B : Type 0} → M W A → (A → M W B) → M W B
◌>>=◌ m f s = elim (m s) [ none ↦ none | some (a, s') ↦ f a s' ]

abbrev pub ◌>>◌ : {W B : Type 0} → M W (Unit {0}) → M W B → M W B
m >> k = m >>= λ _. k

-- A step that returns hands its result and its state on.
pub >>=-some :
    {W A B : Type 0} (m : M W A) (f : A → M W B) (s : State W) {a : A} {s' : State W}
    → m s ≡ some (a, s')
    → (m >>= f) s ≡ f a s'
>>=-some m f s e = rw (e, ◌>>=◌)

pub >>-some :
    {W B : Type 0} (m : M W (Unit {0})) (k : M W B) (s : State W) {s' : State W}
    → m s ≡ some (tt, s')
    → (m >> k) s ≡ k s'
>>-some m k s e = rw (e, ◌>>=◌)

module _ {W : Type 0} (sv : Services W) where
  -- g_pq_pool->Pop()
  abbrev pub pop_conn : M W (Option ℕ)
  pop_conn s =
      let r = sv.pop s.world in some (r.0, record { world = r.1; log = popped r.0 ∷ s.log })

  -- g_pq_pool->Push(conn)
  abbrev pub push_conn : ℕ → M W (Unit {0})
  push_conn c s = some (tt, record { world = sv.push c s.world; log = pushed c ∷ s.log })

  abbrev pub pq_exec : ℕ → Bytes → M W PgResult
  pq_exec c sql s =
      let r = sv.exec c sql s.world in
      some (r.0, record { world = r.1; log = executed c sql ∷ s.log })

  -- PQclear
  abbrev pub pq_clear : M W (Unit {0})
  pq_clear s = some (tt, record s { log = cleared ∷ s.log })

  abbrev pub read_world : {A : Type 0} → (W → A) → M W A
  read_world f s = some (f s.world, s)

-- The connections that were popped and not pushed back yet, the latest first.
abbrev give_back : ℕ → List ℕ → List ℕ
give_back c [] = []
give_back c (d ∷ ds) = if c == d then ds else d ∷ give_back c ds

abbrev pub held : List Event → List ℕ
held [] = []
held (popped (some c) ∷ l) = c ∷ held l
held (pushed c ∷ l) = give_back c (held l)
held (_ ∷ l) = held l

-- How many query results were not cleared.
abbrev pub uncleared : List Event → ℕ
uncleared [] = 0
uncleared (executed c sql ∷ l) = suc (uncleared l)
uncleared (cleared ∷ l) = uncleared l - 1
uncleared (_ ∷ l) = uncleared l

-- The payloads handed to Kafka, the latest first.
abbrev pub sent : List Event → List Bytes
sent [] = []
sent (enqueued b ∷ l) = b ∷ sent l
sent (_ ∷ l) = sent l

-- How often the producer's queue was polled.
abbrev pub polls : List Event → ℕ
polls [] = 0
polls (polled t ∷ l) = suc (polls l)
polls (_ ∷ l) = polls l
