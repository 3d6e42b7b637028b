-- ===== src/Auth/Status.antt =====
-- on_client_online and update_client_status of src/mqtt/auth_plugin.cc: the message about a client that
-- has come online, and the rows of the data base that its connection changes.
pub mod Resources
use ktkkl.Base.{ℕ, ◌*◌, ◌%◌, ◌^◌, [], ◌∷◌, ◌++◌, Option, none, some, Bytes, codes}
use ktkkl.Base.Int.{signed64}
use ktkkl.Libc.{show_signed, bounded}
use ktkkl.Auth.Services.{
  Services, M, pure, ◌>>=◌, ◌>>◌, MqttStatus, pop_conn, push_conn, pq_exec, pq_clear, read_world,
}
use ktkkl.Auth.Kafka.{kafka_send}

-- The buffer that getnameinfo fills; where it fails the buffer keeps what it held.
abbrev pub filled : Option Bytes → Bytes → Bytes
filled none old = old
filled (some name) old = name

-- `char sql[512]`
pub reset_query : ℕ → Bytes → Bytes
reset_query uid clientid = bounded 512 (
    codes "update client_status set status=0,play=0 where uid="
    ++ (show_signed (signed64 uid) ++ (codes " and device!='" ++ (clientid ++ codes "'"))))

pub address_query : ℕ → Bytes → Bytes → Bytes
address_query uid ip clientid = bounded 512 (
    codes "update client_status set ip='"
    ++ (ip
        ++ (codes "' where uid="
            ++ (show_signed (signed64 uid) ++ (codes " and device='" ++ (clientid ++ codes "'"))))))

pub expire_query : ℕ → Bytes → Bytes → Bytes
expire_query uid token clientid = bounded 512 (
    codes "update app_session set expired=extract(epoch from now()) where uid="
    ++ (show_signed (signed64 uid)
        ++ (codes " and (session!='"
            ++ (token ++ (codes "' or device_id!='" ++ (clientid ++ codes "')"))))))

module _ {W : Type 0} (sv : Services W) where
  -- The array `ip` of on_client_online has no initial value.
  unfoldable pub online_message : ℕ → Bytes → Bytes → ℕ → W → MqttStatus
  online_message uid token clientid sd w = record {
    uid = uid;
    token = token;
    device = clientid;
    time_ms = (sv.clock w * 1000) % 2 ^ 64;
    endpoint = filled (sv.peer_name sd w) (sv.stack_text w);
  }

  pub on_client_online : ℕ → ℕ → Bytes → Bytes → ℕ → M W (Unit {0})
  on_client_online fuel uid token clientid sd = do
    msg ← read_world sv (online_message uid token clientid sd)
    kafka_send sv fuel msg

  -- The three statements run one after another, whatever the ones before them returned.
  pub run_updates : ℕ → ℕ → Bytes → Bytes → Bytes → M W (Unit {0})
  run_updates conn uid token clientid ip = do
    _ ← pq_exec sv conn (reset_query uid clientid)
    _ ← pq_exec sv conn (address_query uid ip clientid)
    _ ← pq_exec sv conn (expire_query uid token clientid)
    pq_clear sv
    push_conn sv conn

  -- A null or empty client id, and an empty pool, end the call.
  pub update_client_status : ℕ → Bytes → Option Bytes → ℕ → M W (Unit {0})
  unfolding run_updates
  update_client_status uid token none sd = pure tt
  update_client_status uid token (some []) sd = pure tt
  update_client_status uid token (some (c ∷ cs)) sd = do
    popped ← pop_conn sv
    elim popped [
      | none ↦ pure tt
      | some conn ↦ do
        ip ← read_world sv (λ w. filled (sv.peer_name sd w) [])
        run_updates conn uid token (c ∷ cs) ip
    ]
