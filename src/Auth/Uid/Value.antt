-- ===== src/Auth/Uid/Value.antt =====
use ktkkl.Base.{
  ℕ, ◌+◌, ◌-◌, ◌*◌, ◌%◌, ◌^◌, ◌<◌, Bool, true, not, ◌&&◌, ◌||◌, [], ◌∷◌, none, some, ◌≡◌, refl,
  arith, Bytes, bytes_eq, ◌==◌, if◌then◌else◌,
}
use ktkkl.Libc.{is_digit, read_digits, show}
use ktkkl.Libc.Decimal.{AllDigits, show-AllDigits, show-cons, read_digits-show}
use ktkkl.Auth.Uid.{minus_one, uid_step, uid_loop, get_uid}

-- The bytes that the loop passes: a digit, or a 'P', which it skips.
abbrev pub accepted : ℕ → Bool
accepted c = is_digit c || (c == b'P')

abbrev pub all_accepted : Bytes → Bool
all_accepted [] = true
all_accepted (c ∷ s) = accepted c && all_accepted s

abbrev pub only_digits : Bytes → Bytes
only_digits [] = []
only_digits (c ∷ s) = if is_digit c then c ∷ only_digits s else only_digits s

-- The number that digits spell behind `n`, with no bound.
abbrev pub spelled : ℕ → Bytes → ℕ
spelled n [] = n
spelled n (c ∷ s) = spelled (n * 10 + (c - b'0')) s

-- Two numbers with one remainder keep one remainder under the digits behind them.
spelled_mod :
    (s : Bytes) (m n : ℕ) → m % 2 ^ 64 ≡ n % 2 ^ 64 → spelled m s % 2 ^ 64 ≡ spelled n s % 2 ^ 64
spelled_mod [] m n h = h
spelled_mod (c ∷ s) m n h = spelled_mod s (m * 10 + (c - b'0')) (n * 10 + (c - b'0')) (omega arith)

uid_step_lem :
    (uid c : ℕ)
    → uid_step uid c ≡ (
        if is_digit c
        then some ((uid * 10 + (c - b'0')) % 2 ^ 64)
        else if c == b'P'
        then some uid
        else none)
unfolding uid_step
uid_step_lem uid c = ground arith

uid_loop_lem :
    (s : Bytes) (uid : ℕ)
    → uid < 2 ^ 64
    → uid_loop s uid ≡ (if all_accepted s then spelled uid (only_digits s) % 2 ^ 64 else minus_one)
unfolding uid_loop
uid_loop_lem [] uid h = omega arith
uid_loop_lem (c ∷ s) uid h = ground (
  arith,
  uid_step_lem uid c,
  uid_loop_lem s ((uid * 10 + (c - b'0')) % 2 ^ 64),
  uid_loop_lem s uid,
  spelled_mod (only_digits s) ((uid * 10 + (c - b'0')) % 2 ^ 64) (uid * 10 + (c - b'0')),
)

-- A user name is refused, with -1, exactly when it is empty or holds a byte other than a digit or a
-- 'P'; else the result is the number that its digits spell, modulo 2 ^ 64.
pub get_uid_lem :
    (s : Bytes)
    → get_uid s ≡ (
        if not (bytes_eq s []) && all_accepted s
        then spelled 0 (only_digits s) % 2 ^ 64
        else minus_one)
unfolding get_uid
get_uid_lem [] = refl
get_uid_lem (c ∷ s) = uid_loop_lem (c ∷ s) 0 (omega arith)

AllDigits-accepted : (s : Bytes) → AllDigits s → (all_accepted s ≡ true) × (only_digits s ≡ s)
AllDigits-accepted [] h = (refl, refl)
AllDigits-accepted (c ∷ s) h = ground (arith, AllDigits-accepted s h.1)

spelled_lem : (s : Bytes) (n : ℕ) → AllDigits s → spelled n s ≡ read_digits s n
unfolding read_digits
spelled_lem [] n h = refl
spelled_lem (c ∷ s) n h = ground (arith, spelled_lem s (n * 10 + (c - b'0')) h.1)

-- The printed form of every number below 2 ^ 64 is read back as that number.
pub get_uid-show : (n : ℕ) → n < 2 ^ 64 → get_uid (show n) ≡ n
get_uid-show n h =
    let digits = show-AllDigits n in
    let (d, s, e) = show-cons n in
    let (ok, same) = AllDigits-accepted (show n) digits in
    rw (get_uid_lem (show n), ok, same, spelled_lem (show n) 0 digits, read_digits-show n)
      (rw e (omega arith))
