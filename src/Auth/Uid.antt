-- ===== src/Auth/Uid.antt =====
-- get_uid of src/mqtt/auth_plugin.cc: the user id that a user name spells. A `long` is its bit
-- pattern below 2 ^ 64; the sums wrap around, as the compiled code does.
pub mod Value
use ktkkl.Base.{
  ℕ, ◌+◌, ◌-◌, ◌*◌, ◌%◌, ◌^◌, [], ◌∷◌, Option, none, some, ◌≡◌, refl, Bytes, codes, ltb, leb, ◌==◌,
  if◌then◌else◌,
}
use ktkkl.Base.Int.{ℤ, pos, negsuc}

-- -1 as a `long`
abbrev pub minus_one : ℕ
minus_one = 2 ^ 64 - 1

-- `int d = username[i] - '0'`; a `char` from 128 on is negative.
pub digit_value : ℕ → ℤ
digit_value c =
    if ltb c 128
    then if leb b'0' c then pos (c - b'0') else negsuc (b'0' - c - 1)
    else negsuc (256 + b'0' - c - 1)

-- One round of the loop: the new `uid`, or `none` for `return -1`.
pub uid_step : ℕ → ℕ → Option ℕ
unfolding digit_value
uid_step uid c = elim (digit_value c) [
  | pos d ↦ if leb d 9 then some ((uid * 10 + d) % 2 ^ 64) else if d == b' ' then some uid else none
  | negsuc _ ↦ none
]

pub uid_loop : Bytes → ℕ → ℕ
uid_loop [] uid = uid
uid_loop (c ∷ s) uid = elim (uid_step uid c) [ none ↦ minus_one | some u ↦ uid_loop s u ]

unfoldable pub get_uid : Bytes → ℕ
unfolding uid_loop uid_step
get_uid [] = minus_one
get_uid (c ∷ s) = uid_loop (c ∷ s) 0

plain_number : get_uid (codes "20170009") ≡ 20170009
unfolding get_uid
plain_number = refl

-- The test `d != ' '` is on the digit's value: it lets a 'P' pass and refuses a space.
odd_separators : (get_uid (codes "20P17") ≡ 2017) × (get_uid (codes "20 17") ≡ minus_one)
unfolding get_uid
odd_separators = (refl, refl)
