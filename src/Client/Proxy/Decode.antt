-- ===== src/Client/Proxy/Decode.antt =====
-- The loop that decodes in place against a decoder that reads once from left to right.
use ktkkl.Base.{
  ℕ, zero, suc, ◌+◌, ◌<◌, ◌≡◌, ◌≢◌, refl, sym, ap, ◌∙◌, true, false, [], ◌∷◌, ◌++◌, append_assoc,
  Option, none, some, arith, Bytes, ltb, leb, ◌==◌, ==_iff, if◌then◌else◌, Bool-cases, Option-cases,
  inl, inr, length, length-append, take-length, drop-length_add, get_or-length,
}
use ktkkl.Client.Proxy.{escaped, byte_at, shorten, decode_loop, contains, urldecode}

abbrev pub prepend : Bytes → Option Bytes → Option Bytes
prepend p none = none
prepend p (some s) = some (p ++ s)

-- Read from left to right: `%25` is a percent sign, `%3a`, `%3A` and `%40` are a colon, and any other
-- percent sign is an error.
unfoldable pub decode : Bytes → Option Bytes
decode [] = some []
decode (c ∷ []) = if c == b'%' then none else some (c ∷ [])
decode (c ∷ a ∷ []) = if c == b'%' then none else prepend (c ∷ []) (decode (a ∷ []))
decode (c ∷ a ∷ b ∷ s) =
    let plain = prepend (c ∷ []) (decode (a ∷ b ∷ s)) in
    let rest = decode s in
    if c == b'%' then elim (escaped a b) [ none ↦ none | some r ↦ prepend (r ∷ []) rest ] else plain

pub decode_plain :
    (c : ℕ) (s : Bytes) → (c == b'%') ≡ false → decode (c ∷ s) ≡ prepend (c ∷ []) (decode s)
unfolding decode
decode_plain c [] h = rw h
decode_plain c (a ∷ []) h = rw h
decode_plain c (a ∷ b ∷ s) h = rw h

prepend-prepend : (p q : Bytes) (o : Option Bytes) → prepend p (prepend q o) ≡ prepend (p ++ q) o
prepend-prepend p q none = refl
prepend-prepend p q (some s) = ap some (sym (append_assoc p q s))

length_one : (p : Bytes) (c : ℕ) → length (p ++ c ∷ []) ≡ length p + 1
length_one p c = omega (arith, length-append p (c ∷ []))

-- The rounds of the loop, one lemma for each way they go.
module _ (f : ℕ) (str : Bytes) (i : ℕ) where
  step_end : ltb i (length str) ≡ false → decode_loop (suc f) str i ≡ some str
  unfolding decode_loop
  step_end h = rw (h, decode_loop)

  step_plain :
      ltb i (length str) ≡ true
      → (byte_at str i == b'%') ≡ false
      → decode_loop (suc f) str i ≡ decode_loop f str (i + 1)
  unfolding decode_loop
  step_plain h e = rw (h, decode_loop, e)

  step_short :
      ltb i (length str) ≡ true
      → (byte_at str i == b'%') ≡ true
      → leb (length str) (i + 2) ≡ true
      → decode_loop (suc f) str i ≡ none
  unfolding decode_loop
  step_short h e l = rw (h, decode_loop, e, l)

  step_escape :
      (o : Option ℕ)
      → ltb i (length str) ≡ true
      → (byte_at str i == b'%') ≡ true
      → leb (length str) (i + 2) ≡ false
      → escaped (byte_at str (i + 1)) (byte_at str (i + 2)) ≡ o
      → decode_loop (suc f) str i
        ≡ elim o [ none ↦ none | some r ↦ decode_loop f (shorten str i r) (i + 1) ]
  unfolding decode_loop
  step_escape o h e l q = rw (h, decode_loop, e, l, q)

module _ (p : Bytes) where
  here : (c : ℕ) (s : Bytes) → byte_at (p ++ c ∷ s) (length p) ≡ c
  here c s =
      ap (λ i. byte_at (p ++ c ∷ s) i) (let e : length p ≡ length p + 0 = omega arith in e)
      ∙ get_or-length p (c ∷ s) 0 0

  inside : (s : Bytes) → s ≢ [] → ltb (length p) (length (p ++ s)) ≡ true
  inside [] h = absurd (h refl)
  inside (c ∷ s) h = ground (arith, length-append p (c ∷ s))

  moved :
      (f c : ℕ) (s : Bytes) {o : Option Bytes}
      → decode_loop f ((p ++ c ∷ []) ++ s) (length (p ++ c ∷ [])) ≡ o
      → decode_loop f (p ++ c ∷ s) (length p + 1) ≡ o
  moved f c s h = rw (append_assoc, length_one p c) at h

  shorten_lem : (c a b r : ℕ) (s : Bytes) → shorten (p ++ c ∷ a ∷ b ∷ s) (length p) r ≡ p ++ r ∷ s
  unfolding shorten
  shorten_lem c a b r s = rw (take-length p (c ∷ a ∷ b ∷ s), drop-length_add p (c ∷ a ∷ b ∷ s) 3)

  -- The round at a percent sign with two bytes behind it.
  percent :
      (f a b : ℕ) (s : Bytes)
      → ((r : ℕ) → decode_loop f (p ++ r ∷ s) (length p + 1) ≡ prepend (p ++ r ∷ []) (decode s))
      → decode_loop (suc f) (p ++ b'%' ∷ a ∷ b ∷ s) (length p)
        ≡ prepend p (decode (b'%' ∷ a ∷ b ∷ s))
  unfolding decode
  percent f a b s ih = elim (Option-cases (escaped a b)) [
    | inl e ↦ rw e (step_escape f str (length p) none into sign room (second ∙ e))
    | inr (r, e) ↦ rw e (
        step_escape f str (length p) (some r) into sign room (second ∙ e)
        ∙ (rw (shorten_lem b'%' a b r s) (ih r ∙ sym (prepend-prepend p (r ∷ []) (decode s)))))
  ]
    where
      str : Bytes
      str = p ++ b'%' ∷ a ∷ b ∷ s

      into : ltb (length p) (length str) ≡ true
      into = ground (arith, length-append p (b'%' ∷ a ∷ b ∷ s))

      sign : (byte_at str (length p) == b'%') ≡ true
      sign = rw (here b'%' (a ∷ b ∷ s))

      room : leb (length str) (length p + 2) ≡ false
      room = ground (arith, length-append p (b'%' ∷ a ∷ b ∷ s))

      second : escaped (byte_at str (length p + 1)) (byte_at str (length p + 2)) ≡ escaped a b
      second = rw (get_or-length p (b'%' ∷ a ∷ b ∷ s) 1 0, get_or-length p (b'%' ∷ a ∷ b ∷ s) 2 0)

  -- The round at another byte.
  other :
      (f c : ℕ) (s : Bytes)
      → (c == b'%') ≡ false
      → decode_loop f (p ++ c ∷ s) (length p + 1) ≡ prepend (p ++ c ∷ []) (decode s)
      → decode_loop (suc f) (p ++ c ∷ s) (length p) ≡ prepend p (decode (c ∷ s))
  other f c s plain ih =
      step_plain f (p ++ c ∷ s) (length p) (ground (arith, length-append p (c ∷ s)))
        (rw (here c s) plain)
      ∙ ih
      ∙ (rw (decode_plain c s plain) (sym (prepend-prepend p (c ∷ []) (decode s))))

  -- A percent sign with fewer than two bytes behind it.
  broken :
      (f : ℕ) (s : Bytes) → length s < 2 → decode_loop (suc f) (p ++ b'%' ∷ s) (length p) ≡ none
  broken f s h =
      step_short f (p ++ b'%' ∷ s) (length p) (ground (arith, length-append p (b'%' ∷ s)))
        (rw (here b'%' s)) (ground (arith, length-append p (b'%' ∷ s)))

at_percent :
    (f : ℕ) (p : Bytes) (c : ℕ) (s : Bytes)
    → c ≡ b'%'
    → ((r : ℕ) (t : Bytes)
        → length t < length (c ∷ s)
        → decode_loop f (p ++ r ∷ t) (length p + 1) ≡ prepend (p ++ r ∷ []) (decode t))
    → decode_loop (suc f) (p ++ c ∷ s) (length p) ≡ prepend p (decode (c ∷ s))
at_percent f p c [] e ih = rw e (broken p f [] (omega arith) ∙ (unfold decode in refl))
at_percent f p c (a ∷ []) e ih = rw e (broken p f (a ∷ []) (omega arith) ∙ (unfold decode in refl))
at_percent f p c (a ∷ b ∷ s) e ih = rw e (percent p f a b s (λ r. ih r s (omega arith)))

prepend-nil : (o : Option Bytes) → prepend [] o ≡ o
prepend-nil none = refl
prepend-nil (some s) = refl

-- Without a percent sign there is nothing to do.
decode_none : (s : Bytes) → contains b'%' s ≡ false → decode s ≡ some s
decode_none [] h = unfold decode in refl
decode_none (c ∷ s) h =
    decode_plain c s (ground arith) ∙ ap (prepend (c ∷ [])) (decode_none s (ground arith))

-- The text is `p`, which is done, and `s`.
decode_loop-decode :
    (fuel : ℕ) (p s : Bytes)
    → length s < fuel
    → decode_loop fuel (p ++ s) (length p) ≡ prepend p (decode s)
decode_loop-decode zero p s h = absurd (omega arith)
decode_loop-decode (suc fuel) p [] h =
    step_end fuel (p ++ []) (length p) (ground (arith, length-append p []))
    ∙ (unfold decode in refl)
decode_loop-decode (suc fuel) p (c ∷ s) h = elim (Bool-cases (c == b'%')) [
  | inl t ↦
      at_percent fuel p c s ((==_iff c b'%').0 t)
        λ r t' below. moved p fuel r t' (decode_loop-decode fuel (p ++ r ∷ []) t' (omega arith))
  | inr plain ↦
      other p fuel c s plain
        (moved p fuel c s (decode_loop-decode fuel (p ++ c ∷ []) s (omega arith)))
]

-- The result of the code is what the decoder that reads once returns, errors included.
pub urldecode-decode : (s : Bytes) → urldecode s ≡ decode s
unfolding urldecode
urldecode-decode s = elim (Bool-cases (contains b'%' s)) [
  | inl t ↦ rw t (decode_loop-decode (suc (length s)) [] s (omega arith) ∙ prepend-nil (decode s))
  | inr f ↦ rw f (sym (decode_none s f))
]
