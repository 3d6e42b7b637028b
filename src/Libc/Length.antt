-- ===== src/Libc/Length.antt =====
-- How many digits a printed number has, and what is read of one with a text behind it.
use ktkkl.Base.{
  ℕ, zero, suc, ◌+◌, ◌*◌, ◌/◌, ◌%◌, ◌≤◌, ◌<◌, [], ◌∷◌, ◌++◌, ◌≡◌, refl, ap, arith, Bytes, length,
  ltb, ◌∙◌, sym, Bool-cases, inl, inr,
}
use ktkkl.Libc.{digits, show, read_digits}
use ktkkl.Libc.Decimal.{EndsNumber, read_digits-append, read_digits-digits}

abbrev pub ten_to : ℕ → ℕ
ten_to zero = 1
ten_to (suc k) = 10 * ten_to k

length-digits :
    (f n k : ℕ) (out : Bytes)
    → n < f
    → n < ten_to (suc k)
    → length (digits f n out) ≤ suc k + length out
unfolding digits
length-digits zero n k out h q = absurd (omega arith)
length-digits (suc f) n zero out h q = ground arith
length-digits (suc f) n (suc k) out h q =
    ground (arith, length-digits f (n / 10) k ((b'0' + n % 10) ∷ out))

-- A number below 10 ^ k has at most k digits.
pub length-show : (n k : ℕ) → n < ten_to (suc k) → length (show n) ≤ suc k
unfolding show
length-show n k h = omega (arith, length-digits (suc n) n k [] (omega arith) h)

digits-append : (f n : ℕ) (out rest : Bytes) → digits f n (out ++ rest) ≡ digits f n out ++ rest
unfolding digits
digits-append zero n out rest = refl
digits-append (suc f) n out rest = elim (Bool-cases (ltb n 10)) [
  | inl e ↦ rw e refl
  | inr e ↦ rw e (digits-append f (n / 10) ((b'0' + n % 10) ∷ out) rest)
]

-- A number is read up to the first byte that is no digit.
pub read_digits-show_append :
    (n : ℕ) (rest : Bytes) → EndsNumber rest → read_digits (show n ++ rest) 0 ≡ n
unfolding show
read_digits-show_append n rest h =
    rw (← digits-append (suc n) n [] rest)
      (read_digits-digits (suc n) n rest (omega arith) ∙ read_digits-append n rest h)

pub show_injective : (m n : ℕ) → show m ≡ show n → m ≡ n
show_injective m n e =
    sym (read_digits-show_append m [] tt)
    ∙ (ap (λ t. read_digits (t ++ []) 0) e ∙ read_digits-show_append n [] tt)
