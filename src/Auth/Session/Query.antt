-- ===== src/Auth/Session/Query.antt =====
-- What the data base reads out of the query's text.
use ktkkl.Base.{
  ℕ, zero, suc, ◌≤◌, ◌≢◌, Bool, true, false, ap, sym, ◌∙◌, inl, inr, Bool-cases, ==_iff, [], ◌∷◌,
  ◌++◌, append_assoc, ◌≡◌, refl, ◌↔◌, arith, Bytes, codes, ◌==◌, if◌then◌else◌, length, drop,
  drop-length, take_all, Lacks,
}
use ktkkl.Base.Int.{signed64}
use ktkkl.Libc.{show_signed}
use ktkkl.Auth.Session.{query_text, session_query}

abbrev pub quote : ℕ
quote = b'\''

-- A literal as PostgreSQL reads it behind the opening quote: two quotes stand for one, and one that is
-- alone ends it. The flag says that the byte before was a quote.
abbrev pub read_literal : Bool → Bytes → Bytes
read_literal seen [] = []
read_literal false (c ∷ s) =
    let q = read_literal true s in
    let rest = read_literal false s in if c == quote then q else c ∷ rest
read_literal true (c ∷ s) =
    let rest = read_literal false s in if c == quote then quote ∷ rest else []

-- The text up to the opening quote of the session's literal.
pub before_token : ℕ → Bytes
before_token uid =
    codes "select count(1) from app_session where uid="
    ++ (show_signed (signed64 uid) ++ codes " and session='")

-- The literal that the query compares the column `session` with.
pub session_literal : ℕ → Bytes → Bytes
session_literal uid sql = read_literal false (drop (length (before_token uid)) sql)

-- Quotes in front.
abbrev quoted : ℕ → Bytes → Bytes
quoted zero t = t
quoted (suc k) t = quote ∷ quoted k t

quoted_next : (k : ℕ) (t : Bytes) → quoted k (quote ∷ t) ≡ quoted (suc k) t
quoted_next zero t = refl
quoted_next (suc k) t = ap (◌∷◌ quote) (quoted_next k t)

abbrev tail_of : Bytes → Bytes
tail_of [] = []
tail_of (c ∷ s) = s

abbrev head_of : Bytes → ℕ
head_of [] = 0
head_of (c ∷ s) = c

module _ (r : Bytes) where
  -- The text of a token behind the opening quote, with what follows it in the query.
  abbrev read_token : Bytes → Bytes
  read_token t = read_literal false (t ++ quote ∷ 32 ∷ r)

  plain : (c : ℕ) (t : Bytes) → (c == quote) ≡ false → read_token (c ∷ t) ≡ c ∷ read_token t
  plain c t f = rw f refl

  pair :
      (c d : ℕ) (t : Bytes)
      → (c == quote) ≡ true
      → (d == quote) ≡ true
      → read_token (c ∷ d ∷ t) ≡ quote ∷ read_token t
  pair c d t e f = rw (e, f) refl

  alone :
      (c d : ℕ) (t : Bytes)
      → (c == quote) ≡ true
      → (d == quote) ≡ false
      → read_token (c ∷ d ∷ t) ≡ []
  alone c d t e f = rw (e, f) refl

  last_quote :
      (c : ℕ) → (c == quote) ≡ true → read_token (c ∷ []) ≡ quote ∷ 32 ∷ read_literal false r
  last_quote c e = rw e refl

  head_quoted : (k : ℕ) → head_of (quoted k (quote ∷ [])) ≡ quote
  head_quoted zero = refl
  head_quoted (suc k) = refl

  -- A quote in front is never made up for behind.
  read_token_short : (t : Bytes) (k : ℕ) → read_token t ≢ quoted (suc k) t
  read_token_short [] k e = cc
  read_token_short (c ∷ []) k e = elim (Bool-cases (c == quote)) [
    | inl q ↦
        let p = ap head_of (ap tail_of (sym (last_quote c q) ∙ e)) in
        let same = (==_iff c quote).0 q in
        let h = head_quoted k in
        let g = ap (λ x. head_of (quoted k (x ∷ []))) same in absurd (omega (arith, p, h, g))
    | inr f ↦ let p = ap head_of (sym (plain c [] f) ∙ e) in let t = (==_iff c quote).1 p in cc
  ]
  read_token_short (c ∷ d ∷ t) k e = elim (Bool-cases (c == quote)) [
    | inr f ↦ let p = ap head_of (sym (plain c (d ∷ t) f) ∙ e) in let t = (==_iff c quote).1 p in cc
    | inl q ↦ elim (Bool-cases (d == quote)) [
      | inr f ↦ let p = sym (alone c d t q f) ∙ e in cc
      | inl p ↦
          let cq = (==_iff c quote).0 q in
          let dq = (==_iff d quote).0 p in
          let rest = ap tail_of (sym (pair c d t q p) ∙ e) in
          read_token_short t (suc k) (
            rest
            ∙ (ap (λ x. quoted k (x ∷ d ∷ t)) cq
                ∙ (ap (λ x. quoted k (quote ∷ x ∷ t)) dq
                    ∙ (quoted_next k (quote ∷ t) ∙ ap (◌∷◌ quote) (quoted_next k t)))))
    ]
  ]

  read_token-Lacks : (t : Bytes) → read_token t ≡ t → Lacks quote t
  read_token-Lacks [] e = tt
  read_token-Lacks (c ∷ t) e = elim (Bool-cases (c == quote)) [
    | inr f ↦ (
      (λ q. let t = (==_iff c quote).1 q in cc),
      read_token-Lacks t (ap tail_of (sym (plain c t f) ∙ e)),
    )
    | inl q ↦ absurd (quote_first t q e)
  ]
    where
      quote_first : (u : Bytes) → (c == quote) ≡ true → read_token (c ∷ u) ≡ c ∷ u → ⊥
      quote_first [] q e = let p = ap tail_of (sym (last_quote c q) ∙ e) in cc
      quote_first (d ∷ v) q e = elim (Bool-cases (d == quote)) [
        | inr f ↦ let p = sym (alone c d v q f) ∙ e in cc
        | inl p ↦
            read_token_short v 0
              (ap tail_of (sym (pair c d v q p) ∙ e) ∙ ap (λ x. x ∷ v) ((==_iff d quote).0 p))
      ]

  Lacks-read_token : (t : Bytes) → Lacks quote t → read_token t ≡ t
  Lacks-read_token [] h = refl
  Lacks-read_token (c ∷ t) (ne, h) = elim (Bool-cases (c == quote)) [
    | inl q ↦ absurd (ne ((==_iff c quote).0 q))
    | inr f ↦ plain c t f ∙ ap (◌∷◌ c) (Lacks-read_token t h)
  ]

query_text_lem :
    (uid : ℕ) (token : Bytes)
    → query_text uid token ≡ before_token uid ++ (token ++ codes "' and expired=0")
unfolding query_text before_token
query_text_lem uid token = simp append_assoc

-- Where the text of the query fits in its buffer, the data base, for which two quotes in a literal stand
-- for one, compares the session with the token given exactly when the token holds no quote.
pub session_literal_iff :
    (uid : ℕ) (token : Bytes)
    → length (query_text uid token) ≤ 509
    → (session_literal uid (session_query uid token) ≡ token) ↔ Lacks quote token
unfolding session_query session_literal
session_literal_iff uid token fits =
    rw
      (
        take_all (query_text uid token) 509 fits,
        query_text_lem uid token,
        drop-length (before_token uid) (token ++ codes "' and expired=0"),
      )
      (
        read_token-Lacks (codes "and expired=0") token,
        Lacks-read_token (codes "and expired=0") token,
      )
