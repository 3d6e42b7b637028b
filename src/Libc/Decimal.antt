-- ===== src/Libc/Decimal.antt =====
-- Reading back a printed number.
use ktkkl.Base.{
  ℕ, zero, suc, ◌+◌, ◌/◌, ◌%◌, ◌^◌, ◌≤◌, ◌<◌, true, false, [], ◌∷◌, ◌≡◌, refl, ap, arith, Bytes,
  All, Bool-cases, inl, inr, ltb, leb, if◌then◌else◌,
}
use mathlib.Core.Path.{subst}
use ktkkl.Base.Int.{pos}
use ktkkl.Libc.{is_digit, digits, show, read_digits, atol, atoi, long_max}

-- The text does not go on with a digit.
abbrev pub EndsNumber : Bytes → Type 0
EndsNumber [] = Unit
EndsNumber (c ∷ s) = is_digit c ≡ false

pub read_digits-append : (n : ℕ) (rest : Bytes) → EndsNumber rest → read_digits rest n ≡ n
unfolding read_digits
read_digits-append n [] h = refl
read_digits-append n (c ∷ s) h = ground arith

-- The last digit of a number is read after the digits before it.
read_last : (n : ℕ) (out : Bytes) → read_digits ((b'0' + n % 10) ∷ out) (n / 10) ≡ read_digits out n
unfolding read_digits
read_last n out = ground arith

pub read_digits-digits :
    (f n : ℕ) (out : Bytes) → n < f → read_digits (digits f n out) 0 ≡ read_digits out n
unfolding digits
read_digits-digits zero n out h = absurd (omega arith)
read_digits-digits (suc f) n out h =
    ground (arith, read_last n out, read_digits-digits f (n / 10) ((b'0' + n % 10) ∷ out))

abbrev pub AllDigits : Bytes → Type 0
AllDigits = All (λ c. is_digit c ≡ true)

digits-AllDigits : (f n : ℕ) (out : Bytes) → AllDigits out → AllDigits (digits f n out)
unfolding digits
digits-AllDigits zero n out h = h
digits-AllDigits (suc f) n out h =
    ground (arith, digits-AllDigits f (n / 10) ((b'0' + n % 10) ∷ out))

digits-cons :
    (f n : ℕ) (c : ℕ) (out : Bytes) → (d : ℕ) × (s : Bytes) × (digits f n (c ∷ out) ≡ d ∷ s)
unfolding digits
digits-cons zero n c out = (c, out, refl)
digits-cons (suc f) n c out = elim (Bool-cases (ltb n 10)) [
  | inl e ↦ (b'0' + n % 10, c ∷ out, rw e)
  | inr e ↦ rw e (digits-cons f (n / 10) (b'0' + n % 10) (c ∷ out))
]

-- A printed number is one or more digits.
pub show-AllDigits : (n : ℕ) → AllDigits (show n)
unfolding show
show-AllDigits n = digits-AllDigits (suc n) n [] tt

pub show-cons : (n : ℕ) → (d : ℕ) × (s : Bytes) × (show n ≡ d ∷ s)
unfolding show
show-cons n = elim (Bool-cases (ltb n 10)) [
  | inl e ↦ (b'0' + n % 10, [], rw e)
  | inr e ↦ rw e (digits-cons n (n / 10) (b'0' + n % 10) [])
]

pub read_digits-show : (n : ℕ) → read_digits (show n) 0 ≡ n
unfolding show read_digits
read_digits-show n = read_digits-digits (suc n) n [] (omega arith)

-- A text of digits is read as its number, up to the largest `long`.
atol-digits :
    (d : ℕ) (s : Bytes)
    → AllDigits (d ∷ s)
    → atol (d ∷ s)
      ≡ pos (if leb (read_digits (d ∷ s) 0) long_max then read_digits (d ∷ s) 0 else long_max)
unfolding atol
atol-digits d s h = ground arith

pub atol-show : (n : ℕ) → n ≤ long_max → atol (show n) ≡ pos n
atol-show n h =
    let (d, s, e) = show-cons n in
    let ds = subst AllDigits e (show-AllDigits n) in
    ground (arith, atol-digits d s ds, read_digits-show n, ap (λ t. read_digits t 0) e, ap atol e)

pub atoi-show : (n : ℕ) → n < 2 ^ 31 → atoi (show n) ≡ pos n
unfolding atoi
atoi-show n h = ground (arith, atol-show n)
