-- ===== src/Auth/Session.antt =====
-- check_token of src/mqtt/auth_plugin.cc: is the password a session token of the user in the data
-- base? A result of -1 is `negsuc 0`.
pub mod Query
pub mod Decision
use ktkkl.Base.{
  ℕ, zero, suc, ◌+◌, ◌++◌, Bool, true, false, Option, none, some, ◌≡◌, refl, Bytes, codes,
  if◌then◌else◌,
}
use ktkkl.Base.Int.{ℤ, pos, negsuc, signed64, ltb_ℤ}
use ktkkl.Libc.{show_signed, atol, bounded}
use ktkkl.Auth.Services.{
  Services, M, pure, ◌>>=◌, ◌>>◌, PgResult, tuples_ok, pop_conn, push_conn, pq_exec, pq_clear,
}

-- The text of the query, before it is cut to the buffer.
unfoldable pub query_text : ℕ → Bytes → Bytes
query_text uid token =
    codes "select count(1) from app_session where uid="
    ++ (show_signed (signed64 uid)
        ++ (codes " and session='" ++ (token ++ codes "' and expired=0")))

-- `char sql[510]`
pub session_query : ℕ → Bytes → Bytes
session_query uid token = bounded 510 (query_text uid token)

-- The loop over the rows; `left` rows stand from row `i` on.
pub read_count : PgResult → ℕ → ℕ → ℤ → ℤ
read_count res zero i count = count
read_count res (suc left) i count = elim (atol (res.getvalue i 0)) [
  | pos n ↦ pos n
  | negsuc n ↦ read_count res left (i + 1) (negsuc n)
]

module _ {W : Type 0} (sv : Services W) where
  pub check_rows : ℕ → PgResult → M W ℤ
  check_rows conn res = elim res.status [
    | tuples_ok ↦ do
      let count = read_count res res.ntuples 0 (pos 0)
      pq_clear sv
      push_conn sv conn
      pure (if ltb_ℤ (pos 0) count then pos 0 else negsuc 0)
    | _ ↦ do pq_clear sv; push_conn sv conn; pure (negsuc 0)
  ]

  pub check_token : ℕ → Bytes → M W ℤ
  unfolding check_rows
  check_token uid token = do
    popped ← pop_conn sv
    elim popped [
      | none ↦ pure (negsuc 0)
      | some conn ↦ do res ← pq_exec sv conn (session_query uid token); check_rows conn res
    ]
