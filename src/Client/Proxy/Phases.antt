-- ===== src/Client/Proxy/Phases.antt =====
-- How the loop of mosquitto__parse_socks_url in src/mqtt/client_shared.cc goes over one word of a url and the
-- separator behind it.
use ktkkl.Base.{
  ℕ, ◌+◌, ◌-◌, ◌<◌, Bool, true, false, Option, none, some, [], ◌∷◌, ◌++◌, ◌≡◌, ◌≢◌, refl, sym, ap,
  ◌∙◌, arith, Bytes, All, length, take, drop-length, take-length, length-append, ◌==◌, ==_iff,
  append-nil, append_assoc,
}
use ktkkl.Client.Proxy.{Scan, between, on_colon, on_at, scan_step, scan_loop}

-- No byte is a separator.
abbrev pub Plain : Bytes → Type 0
Plain = All (λ c. (c ≢ b':') × (c ≢ b'@'))

plain_step : (str : Bytes) (i c : ℕ) (v : Scan) → c ≢ b':' → c ≢ b'@' → scan_step str i c v ≡ some v
unfolding scan_step
plain_step str i c v p q = ground (arith, ==_iff c b':', ==_iff c b'@')

skip :
    (str w rest : Bytes) (i : ℕ) (v : Scan)
    → Plain w
    → scan_loop str (w ++ rest) i v ≡ scan_loop str rest (i + length w) v
unfolding scan_loop
skip str [] rest i v p = ap (λ j. scan_loop str rest j v) (omega arith)
skip str (c ∷ w) rest i v ((p, q), ps) =
    rw (plain_step str i c v p q, scan_loop)
      (skip str w rest (i + 1) v ps ∙ ap (λ j. scan_loop str rest j v) (omega arith))

between_word :
    (pre w tail : Bytes) → between (pre ++ (w ++ tail)) (length pre) (length pre + length w) ≡ w
between_word pre w tail =
    ap (λ s. take (length pre + length w - length pre) s) (drop-length pre (w ++ tail))
    ∙ (ap (λ k. take k (w ++ tail)) (omega arith) ∙ take-length w tail)

-- The last word.
pub tail_word : (pre w : Bytes) → between (pre ++ w) (length pre) (length (pre ++ w)) ≡ w
tail_word pre w =
    ap (λ s. between (pre ++ s) (length pre) (length (pre ++ w))) (sym (append-nil w))
    ∙ (ap (between (pre ++ (w ++ [])) (length pre)) (length-append pre w) ∙ between_word pre w [])

-- The loop behind `pre`, at the start of a word; `st` is the state with that start.
abbrev pub run : Bytes → (ℕ → Scan) → Bytes → Option Scan
run pre st rest = scan_loop (pre ++ rest) rest (length pre) (st (length pre))

-- Over a word and the separator `c` behind it.
pub hop :
    (pre w rest : Bytes) (c : ℕ) (st st' : ℕ → Scan)
    → Plain w
    → scan_step (pre ++ (w ++ c ∷ rest)) (length pre + length w) c (st (length pre))
      ≡ some (st' (length pre + length w + 1))
    → run pre st (w ++ c ∷ rest) ≡ run (pre ++ (w ++ c ∷ [])) st' rest
unfolding scan_loop
hop pre w rest c st st' p s =
    let pre' = pre ++ (w ++ c ∷ []) in
    let far : length pre + length w + 1 ≡ length pre' =
      omega (arith, length-append {0} pre (w ++ c ∷ []), length-append {0} w (c ∷ [])) in
    let text : pre ++ (w ++ c ∷ rest) ≡ pre' ++ rest = simp append_assoc in
    skip (pre ++ (w ++ c ∷ rest)) w (c ∷ rest) (length pre) (st (length pre)) p
    ∙ (rw (s, scan_loop) refl
        ∙ (ap (λ t. scan_loop t rest (length pre + length w + 1) (st' (length pre + length w + 1)))
              text
            ∙ ap (λ k. scan_loop (pre' ++ rest) rest k (st' k)) far))

-- Over the last word.
pub last_hop : (pre w : Bytes) (st : ℕ → Scan) → Plain w → run pre st w ≡ some (st (length pre))
unfolding scan_loop
last_hop pre w st p =
    ap (λ s. scan_loop (pre ++ w) s (length pre) (st (length pre))) (sym (append-nil w))
    ∙ skip (pre ++ w) w [] (length pre) (st (length pre)) p

-- The variables of the loop, the start of the word first.
abbrev pub scan : ℕ → Bool → Option Bytes → Option Bytes → Option Bytes → Option Bytes → Scan
scan start auth username password host name_or_host = record {
  start = start;
  have_auth = auth;
  username = username;
  password = password;
  host = host;
  username_or_host = name_or_host;
}

module _ (pre w rest : Bytes) (filled : 0 < length w) where
  not_empty : (length pre + length w == length pre) ≡ false
  not_empty = ground arith

  -- A `:` with neither an `@` nor a `:` before it.
  pub colon_first :
      let i = length pre + length w in
      scan_step (pre ++ (w ++ b':' ∷ rest)) i b':' (scan (length pre) false none none none none)
      ≡ some (scan (i + 1) false none none none (some w))
  unfolding scan_step on_colon
  colon_first = rw (not_empty, between_word pre w (b':' ∷ rest)) refl

  -- A `:` behind an `@`.
  pub colon_host :
      (u p : Option Bytes)
      → let i = length pre + length w in
        scan_step (pre ++ (w ++ b':' ∷ rest)) i b':' (scan (length pre) true u p none none)
        ≡ some (scan (i + 1) true u p (some w) none)
  unfolding scan_step on_colon
  colon_host u p = rw (not_empty, between_word pre w (b':' ∷ rest)) refl

  -- An `@` with no `:` before it.
  pub at_name :
      let i = length pre + length w in
      scan_step (pre ++ (w ++ b'@' ∷ rest)) i b'@' (scan (length pre) false none none none none)
      ≡ some (scan (i + 1) true (some w) none none none)
  unfolding scan_step on_at
  at_name = rw (not_empty, between_word pre w (b'@' ∷ rest)) refl

  -- An `@` behind a `:`.
  pub at_password :
      (u : Bytes)
      → let i = length pre + length w in
        scan_step
          (pre ++ (w ++ b'@' ∷ rest))
          i
          b'@'
          (scan (length pre) false none none none (some u))
        ≡ some (scan (i + 1) true (some u) (some w) none none)
  unfolding scan_step on_at
  at_password u = rw (not_empty, between_word pre w (b'@' ∷ rest)) refl
