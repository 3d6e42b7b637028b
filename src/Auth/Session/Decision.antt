-- ===== src/Auth/Session/Decision.antt =====
-- When check_token accepts, and what it leaves behind.
use ktkkl.Base.{
  ℕ, zero, suc, ◌+◌, ◌<◌, ◌∷◌, true, none, some, ◌≡◌, ◌≢◌, refl, ◌↔◌, sym, ◌∙◌, ◌⊎◌, arith, Bytes,
  Option-cases, Bool-cases, inl, inr,
}
use ktkkl.Base.Int.{ℤ, pos, negsuc, ltb_ℤ}
use ktkkl.Libc.{atol}
use native.Mathlib.Nat.{add-zero}
use mathlib.Core.Path.{subst}
use ktkkl.Auth.Services.{
  Services, State, M, PgResult, ExecStatus, tuples_ok, command_ok, failed, popped, pushed, executed,
  cleared, held, uncleared, sent,
}
use ktkkl.Auth.Session.{session_query, read_count, check_rows, check_token}

abbrev pub cell : PgResult → ℕ → ℤ
cell res i = atol (res.getvalue i 0)

-- Among `left` rows from row `i` on there is a positive number, with negative ones only before it.
abbrev PositiveFrom : PgResult → ℕ → ℕ → Type 0
PositiveFrom res left i =
    (k n : ℕ) × (k < left)
    × (cell res (i + k) ≡ pos (suc n))
    × ((j : ℕ) → j < k → (m : ℕ) × (cell res (i + j) ≡ negsuc m))

ℤ-cases : (z : ℤ) → ((n : ℕ) × (z ≡ pos n)) ⊎ ((n : ℕ) × (z ≡ negsuc n))
ℤ-cases (pos n) = inl (n, refl)
ℤ-cases (negsuc n) = inr (n, refl)

read_count_pos :
    (res : PgResult) (left i n : ℕ) (c : ℤ)
    → cell res i ≡ pos n
    → read_count res (suc left) i c ≡ pos n
unfolding read_count
read_count_pos res left i n c e = rw (e, read_count)

read_count_neg :
    (res : PgResult) (left i n : ℕ) (c : ℤ)
    → cell res i ≡ negsuc n
    → read_count res (suc left) i c ≡ read_count res left (i + 1) (negsuc n)
unfolding read_count
read_count_neg res left i n c e = rw (e, read_count)

read_count_sound :
    (res : PgResult) (left i n : ℕ) (c : ℤ)
    → ((m : ℕ) → c ≢ pos (suc m))
    → read_count res left i c ≡ pos (suc n)
    → PositiveFrom res left i
read_count_sound res zero i n c start h = absurd (start n (unfold read_count in h))
read_count_sound res (suc left) i n c start h = elim (ℤ-cases (cell res i)) [
  | inl (a, e) ↦ (
    0,
    n,
    omega arith,
    rw add-zero (e ∙ sym (read_count_pos res left i a c e) ∙ h),
    λ j lt. absurd (omega arith),
  )
  | inr (a, e) ↦
      let (k, v, below, positive, before) =
        read_count_sound res left (i + 1) n (negsuc a) (λ m q. cc)
          (sym (read_count_neg res left i a c e) ∙ h) in
      (suc k, v, omega arith, at_next k positive, negatives a e k before)
]
  where
    next : (k : ℕ) → i + suc k ≡ i + 1 + k
    next k = omega arith

    at_next : {z : ℤ} (k : ℕ) → cell res (i + 1 + k) ≡ z → cell res (i + suc k) ≡ z
    at_next k q = rw (next k) q

    negatives :
        (a : ℕ)
        → cell res i ≡ negsuc a
        → (k : ℕ) → ((j : ℕ) → j < k → (m : ℕ) × (cell res (i + 1 + j) ≡ negsuc m))
        → (j : ℕ) → j < suc k
        → (m : ℕ) × (cell res (i + j) ≡ negsuc m)
    negatives a e k before zero lt = (a, rw add-zero e)
    negatives a e k before (suc j) lt = let (b, q) = before j (omega arith) in (b, at_next j q)

read_count_complete :
    (k : ℕ) (res : PgResult) (left i m n : ℕ)
    → k < left
    → cell res (i + k) ≡ pos (suc n)
    → ((j : ℕ) → j < k → (m : ℕ) × (cell res (i + j) ≡ negsuc m))
    → (c : ℤ) → read_count res left i c ≡ pos (suc n)
read_count_complete k res zero i m n lt e before c = absurd (omega arith)
read_count_complete zero res (suc left) i m n lt e before c =
    read_count_pos res left i (suc n) c (rw add-zero at e)
read_count_complete (suc k) res (suc left) i m n lt e before c =
    let (a, q) = before 0 (omega arith) in
    read_count_neg res left i a c (rw add-zero at q)
    ∙ read_count_complete k res left (i + 1) m n (omega arith) (rw (next k) at e)
        (λ j h. let (b, r) = before (suc j) (omega arith) in (b, rw (next j) at r)) (negsuc a)
  where
    next : (k : ℕ) → i + suc k ≡ i + 1 + k
    next k = omega arith

-- The query's answer holds a positive count, with negative ones only before it.
abbrev pub HasSession : PgResult → Type 0
HasSession res =
    (i n : ℕ) × (i < res.ntuples)
    × (cell res i ≡ pos (suc n))
    × ((j : ℕ) → j < i → (m : ℕ) × (cell res j ≡ negsuc m))

HasSession-iff :
    (res : PgResult)
    → (ltb_ℤ (pos 0) (read_count res res.ntuples 0 (pos 0)) ≡ true) ↔ HasSession res
HasSession-iff res = (there, back)
  where
    at : (j : ℕ) → 0 + j ≡ j
    at j = omega arith

    positive : (c : ℤ) → ltb_ℤ (pos 0) c ≡ true → (n : ℕ) × (c ≡ pos (suc n))
    positive (pos zero) h = ground arith
    positive (pos (suc n)) h = (n, refl)
    positive (negsuc n) h = ground arith

    there : ltb_ℤ (pos 0) (read_count res res.ntuples 0 (pos 0)) ≡ true → HasSession res
    there h =
        let (n, e) = positive _ h in
        let (k, v, below, found, before) =
          read_count_sound res res.ntuples 0 n (pos 0) (λ m q. absurd (ground arith)) e in
        (k, v, below, rw (at k) at found, λ j lt. let (m, q) = before j lt in (m, rw (at j) at q))

    back : HasSession res → ltb_ℤ (pos 0) (read_count res res.ntuples 0 (pos 0)) ≡ true
    back (i, n, below, found, before) =
        rw
          (read_count_complete i res res.ntuples 0 0 n below (rw (at i) found)
            (λ j lt. let (m, q) = before j lt in (m, rw (at j) q)) (pos 0))
          (ground arith)

module _ {W : Type 0} (sv : Services W) (uid : ℕ) (token : Bytes) where
  abbrev answer : ℕ → W → PgResult
  answer conn w = (sv.exec conn (session_query uid token) (sv.pop w).1).0

  -- The pool has a connection, and over it the query for the session is answered with a positive count.
  abbrev pub SessionOpen : W → Type 0
  SessionOpen w =
      (conn : ℕ) × ((sv.pop w).0 ≡ some conn)
      × ((answer conn w).status ≡ tuples_ok)
      × HasSession (answer conn w)

  pub record Checked (s s' : State W) (rc : ℤ) : Type 0 where
    pub verdict : (rc ≡ pos 0) ↔ SessionOpen s.world
    pub connections : held s'.log ≡ held s.log
    pub results : uncleared s'.log ≡ uncleared s.log
    pub payloads : sent s'.log ≡ sent s.log

  abbrev pub Checks : State W → M W ℤ → Type 0
  Checks s run = (rc : ℤ) × (s' : State W) × (run s ≡ some (rc, s')) × Checked s s' rc

  asked : ℕ → State W → State W
  asked conn s = record {
    world = (sv.exec conn (session_query uid token) (sv.pop s.world).1).1;
    log = executed conn (session_query uid token) ∷ popped (some conn) ∷ s.log;
  }

  returned : ℕ → State W → State W
  returned conn s = record {
    world = sv.push conn (asked conn s).world;
    log = pushed conn ∷ cleared ∷ (asked conn s).log;
  }

  returned-Checked :
      (conn : ℕ) (s : State W) (rc : ℤ)
      → ((rc ≡ pos 0) ↔ SessionOpen s.world)
      → Checked s (returned conn s) rc
  unfolding returned asked
  returned-Checked conn s rc v = record {
    verdict = v;
    connections = ground arith;
    results = omega arith;
    payloads = refl;
  }

  status_ok :
      (w : W) (conn : ℕ)
      → (sv.pop w).0 ≡ some conn
      → SessionOpen w
      → ((answer conn w).status ≡ tuples_ok) × HasSession (answer conn w)
  status_ok w conn e (c, f, ok, open_session) =
      let same : c ≡ conn = cc in
      (
        subst (λ d. (answer d w).status ≡ tuples_ok) same ok,
        subst (λ d. HasSession (answer d w)) same open_session,
      )

  check_rows_lem :
      (s : State W) (conn : ℕ)
      → (sv.pop s.world).0 ≡ some conn
      → (st : ExecStatus) → (answer conn s.world).status ≡ st
      → (rc : ℤ) × (check_rows sv conn (answer conn s.world) (asked conn s)
          ≡ some (rc, returned conn s))
        × ((rc ≡ pos 0) ↔ SessionOpen s.world)
  unfolding check_rows returned
  check_rows_lem s conn e tuples_ok q =
      let res = answer conn s.world in
      let iff = HasSession-iff res in
      elim (Bool-cases (ltb_ℤ (pos 0) (read_count res res.ntuples 0 (pos 0)))) [
        | inl t ↦ (pos 0, rw (q, check_rows, t), ((λ _. (conn, e, q, iff.0 t)), λ _. refl))
        | inr f ↦ (
          negsuc 0,
          rw (q, check_rows, f),
          ((λ h. cc), λ h. let t = iff.1 (status_ok s.world conn e h).1 in cc),
        )
      ]
  check_rows_lem s conn e command_ok q =
      (negsuc 0, rw (q, check_rows), ((λ h. cc), λ h. let o = (status_ok s.world conn e h).0 in cc))
  check_rows_lem s conn e failed q =
      (negsuc 0, rw (q, check_rows), ((λ h. cc), λ h. let o = (status_ok s.world conn e h).0 in cc))

  -- check_token returns; its result is 0 exactly when the data base knows an open session, and it gives
  -- the connection back and clears the query's result on every path.
  pub check_token_lem : (s : State W) → Checks s (check_token sv uid token)
  unfolding check_token
  check_token_lem s = elim (Option-cases (sv.pop s.world).0) [
    | inl e ↦ (
      negsuc 0,
      record { world = (sv.pop s.world).1; log = popped none ∷ s.log },
      rw (e, check_token),
      record {
        verdict = ((λ h. cc), λ h. let q = h.1 in cc);
        connections = refl;
        results = refl;
        payloads = refl;
      },
    )
    | inr (conn, e) ↦
        let (rc, ran, v) = check_rows_lem s conn e _ refl in
        (rc, returned conn s, ran_from conn e ran, returned-Checked conn s rc v)
  ]
    where
      ran_from :
          (conn : ℕ)
          → (sv.pop s.world).0 ≡ some conn
          → {rc : ℤ}
          → check_rows sv conn (answer conn s.world) (asked conn s) ≡ some (rc, returned conn s)
          → check_token sv uid token s ≡ some (rc, returned conn s)
      ran_from conn e h = rw (e, check_token) (unfold asked in h)
