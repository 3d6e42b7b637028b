-- ===== src/Libc.antt =====
-- What the programs use of the C library: comparing, reading and printing decimal numbers, and
-- the bounded print. A text is the list of its bytes before the NUL.
pub mod Decimal
pub mod Length
use ktkkl.Base.{
  ℕ, zero, suc, ◌+◌, ◌-◌, ◌*◌, ◌/◌, ◌%◌, ◌^◌, Bool, true, false, ◌&&◌, ◌||◌, [], ◌∷◌, ◌≡◌, refl,
  Bytes, codes, ltb, leb, ◌==◌, if◌then◌else◌, take, bytes_eq,
}
use ktkkl.Base.Int.{ℤ, pos, negsuc}

-- strcmp(a, b) == 0
abbrev pub same : Bytes → Bytes → Bool
same a b = bytes_eq a b

-- strncmp(a, b, n) == 0
abbrev pub same_prefix : ℕ → Bytes → Bytes → Bool
same_prefix n a b = bytes_eq (take n a) (take n b)

abbrev pub is_digit : ℕ → Bool
is_digit c = leb b'0' c && leb c b'9'

-- isspace in the C locale
abbrev pub is_space : ℕ → Bool
is_space c = (leb 9 c && leb c 13) || (c == 32)

pub digits : ℕ → ℕ → Bytes → Bytes
digits zero n out = out
digits (suc f) n out =
    let d = b'0' + n % 10 in
    let rest = digits f (n / 10) (d ∷ out) in if ltb n 10 then d ∷ out else rest

-- printf's %lu: a number has fewer digits than its successor, so the fuel is enough.
unfoldable pub show : ℕ → Bytes
unfolding digits
show n = digits (suc n) n []

-- printf's %ld and %d
unfoldable pub show_signed : ℤ → Bytes
unfolding show
show_signed (pos n) = show n
show_signed (negsuc n) = b'-' ∷ show (suc n)

-- the digits up to the first other byte
unfoldable pub read_digits : Bytes → ℕ → ℕ
read_digits [] n = n
read_digits (c ∷ s) n =
    let rest = read_digits s (n * 10 + (c - b'0')) in if is_digit c then rest else n

abbrev pub long_max : ℕ
long_max = 2 ^ 63 - 1

read_sign : Bytes → ℤ
unfolding read_digits
read_sign [] = pos 0
read_sign (c ∷ s) =
    if c == b'-'
    then negative (read_digits s 0)
    else if c == b'+'
    then positive (read_digits s 0)
    else positive (read_digits (c ∷ s) 0)
  where
    positive : ℕ → ℤ
    positive n = pos (if leb n long_max then n else long_max)

    negative : ℕ → ℤ
    negative zero = pos 0
    negative (suc n) = negsuc (if leb n long_max then n else long_max)

skip_space : Bytes → Bytes
skip_space [] = []
skip_space (c ∷ s) = let rest = skip_space s in if is_space c then rest else c ∷ s

-- atol: as strtol in base ten, which stays at the ends of the range of `long`
unfoldable pub atol : Bytes → ℤ
unfolding read_sign skip_space
atol s = read_sign (skip_space s)

-- a `long` cut to `int`: the low 32 bits, read as a signed number
abbrev pub to_int : ℤ → ℤ
to_int (pos n) = let w = n % 2 ^ 32 in if ltb w (2 ^ 31) then pos w else negsuc (2 ^ 32 - w - 1)
to_int (negsuc n) = let w = n % 2 ^ 32 in if ltb w (2 ^ 31) then negsuc w else pos (2 ^ 32 - w - 1)

unfoldable pub atoi : Bytes → ℤ
unfolding atol
atoi s = to_int (atol s)

-- snprintf(buf, size, ...): at most size - 1 bytes of the text are kept.
abbrev pub bounded : ℕ → Bytes → Bytes
bounded size text = take (size - 1) text

atol_tests : (atol (codes " -12x") ≡ negsuc 11) × (atol (codes "abc") ≡ pos 0)
unfolding atol
atol_tests = (refl, refl)

atoi_wraps : (atoi (codes "4294967297") ≡ pos 1) × (atoi (codes "2147483648") ≡ negsuc (2 ^ 31 - 1))
unfolding atoi
atoi_wraps = (refl, refl)

show_test : show_signed (negsuc 2016) ≡ codes "-2017"
unfolding show_signed
show_test = refl
