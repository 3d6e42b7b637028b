-- ===== src/Examples/Auth.antt =====
-- Inputs for src/mqtt/auth_plugin.cc: a data base that knows every session, and a producer's queue that
-- takes a message at once, or after as many polls as the world says.
use ktkkl.Base.{
  ℕ, Bytes, ◌-◌, [], ◌∷◌, none, some, ◌≡◌, refl, ◌↔◌, arith, codes, Lacks, ◌==◌, if◌then◌else◌,
}
use ktkkl.Libc.{show, show_signed}
use ktkkl.Auth.Uid.{get_uid}
use ktkkl.Auth.Uid.Value
use ktkkl.Auth.Services.{Services, State, PgResult, tuples_ok, MqttStatus, queue_full, uncleared}
use ktkkl.Auth.Kafka.{kafka_send}
use ktkkl.Auth.Kafka.Delivery
use ktkkl.Auth.Session.{query_text, session_query, check_token}
use ktkkl.Auth.Session.Decision
use ktkkl.Auth.Session.Query
use ktkkl.Auth.Session.Query.{quote, session_literal}
use ktkkl.Auth.Status.{
  online_message, update_client_status, expire_query, address_query, reset_query,
}
use ktkkl.Auth.Status.Resources
use ktkkl.Auth.Connect.{connect_check}
use ktkkl.Auth.Connect.Admission
use ktkkl.Auth.Connect.Admission.{DrainsWithin, Decides, Admitted}
use ktkkl.Auth.Connect.Series
use ktkkl.Auth.Connect.Series.{client, idle, meanwhile, attempt}

abbrev one_row : PgResult
one_row = record { status = tuples_ok; ntuples = 1; getvalue = λ i j. codes "1" }

abbrev busy : Services ℕ
busy = record {
  pop = λ w. (some 7, w);
  push = λ c w. w;
  exec = λ c sql w. (one_row, w);
  clock = λ w. 1000;
  peer_name = λ sd w. some (codes "::1");
  stack_text = λ w. [];
  serialize = λ m. m.token;
  produce = λ b w. (if w == 0 then none else some queue_full, w);
  poll = λ t w. w - 1;
}

abbrev pub calm : Services ℕ
calm = record busy { produce = λ b w. (none, w) }

abbrev full : Services ℕ
full = record busy { produce = λ b w. (some queue_full, w) }

abbrev pub start : ℕ → State ℕ
start w = record { world = w; log = [] }

abbrev status : MqttStatus
status = record {
  uid = 2017;
  token = codes "secret";
  device = codes "phone";
  time_ms = 0;
  endpoint = [];
}

get_uid-show_example : get_uid (show 20170009) ≡ 20170009
get_uid-show_example = Value.get_uid-show 20170009 (omega arith)

get_uid_lem_example : get_uid (codes "20P17") ≡ Value.spelled 0 (Value.only_digits (codes "20P17"))
get_uid_lem_example = Value.get_uid_lem (codes "20P17")

connect_check-Decides_example :
    Admission.Decides calm
      (Admission.Admitted calm (codes "2017") (codes "secret") 0)
      (online_message calm (get_uid (codes "2017")) (codes "secret") (codes "phone") 5)
      (start 0)
      (connect_check calm 1 (some (codes "2017")) (some (codes "secret")) (some (codes "phone")) 5)
connect_check-Decides_example =
    Admission.connect_check-Decides calm 1 1 (λ buf w. (0, omega arith, λ e. cc)) (omega arith)
      (codes "secret") (codes "phone") 5 (codes "2017") (start 0)

drains : DrainsWithin calm 1
drains buf w = (0, omega arith, λ e. cc)

-- One client after another, with the same socket.
abbrev login :
    (un : Bytes) (s : State ℕ)
    → Decides calm
        (Admitted calm un (codes "secret") s.world)
        (online_message calm (get_uid un) (codes "secret") (codes "phone") 5)
        s
        (connect_check calm 1 (some un) (some (codes "secret")) (some (codes "phone")) 5)
login un s =
    Admission.connect_check-Decides calm 1 1 drains (omega arith) (codes "secret") (codes "phone") 5
      un s

abbrev second_start : State ℕ
second_start = record (login (codes "2017") (start 0)).1 { world = 3 }

Served-Account_example :
    Series.Account calm 1
      (start 0)
      ((
        client (some (codes "someone")) (some (codes "secret")) (some (codes "phone")) 5,
        (login (codes "someone") second_start).0,
      )
        ∷ (
          client (some (codes "2017")) (some (codes "secret")) (some (codes "phone")) 5,
          (login (codes "2017") (start 0)).0,
        )
        ∷ [])
      (login (codes "someone") second_start).1
Served-Account_example = Series.Served-Account calm 1 1 drains (omega arith) (start 0) (
    attempt _ second_start _ _ _
      (meanwhile _ _ 3 (attempt [] (start 0) _ _ _ idle (login (codes "2017") (start 0)).2))
      (login (codes "someone") second_start).2)

kafka_send_total_example :
    (s' : State ℕ) × (kafka_send busy 3 status (start 2) ≡ some (tt, s'))
    × Delivery.Handed busy (codes "secret") 2 none [] s'.log
kafka_send_total_example =
    Delivery.kafka_send_total busy status 2 3 (start 2) (refl, (refl, λ e. cc)) (omega arith)

kafka_send_stuck_example : kafka_send full 9 status (start 0) ≡ none
kafka_send_stuck_example = Delivery.kafka_send_stuck full status (λ w. refl) 9 (start 0)

session_literal_iff_example :
    (session_literal 7 (session_query 7 (codes "a'b")) ≡ codes "a'b") ↔ Lacks quote (codes "a'b")
unfolding query_text show_signed
session_literal_iff_example = Query.session_literal_iff 7 (codes "a'b") (omega arith)

check_token_lem_example :
    Decision.Checks calm 2017 (codes "secret") (start 0) (check_token calm 2017 (codes "secret"))
check_token_lem_example = Decision.check_token_lem calm 2017 (codes "secret") (start 0)

update_client_status_leaks_example :
    (s' : State ℕ) × (update_client_status calm 7 (codes "t") (some (codes "phone")) 5 (start 0)
      ≡ some (tt, s'))
    × (Resources.statements s'.log
        ≡ (7, expire_query 7 (codes "t") (codes "phone"))
          ∷ (7, address_query 7 (codes "::1") (codes "phone"))
          ∷ (7, reset_query 7 (codes "phone"))
          ∷ [])
    × (uncleared s'.log ≡ 2)
    × Resources.Kept calm [] s'.log
update_client_status_leaks_example =
    Resources.update_client_status_leaks calm 7 (codes "t") 5 (start 0) b'p' (codes "hone") 7 refl
