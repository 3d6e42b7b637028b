-- ===== src/Client/Proxy/Url.antt =====
-- Proxy urls of the six forms that a comment in src/mqtt/client_shared.cc lists, and what they mean.
use ktkkl.Base.{
  ℕ, ◌≤◌, ◌<◌, true, Option, none, some, [], ◌∷◌, ◌++◌, ◌≡◌, ◌≢◌, arith, Bytes, map, All-append,
  length, length-append, Bool-cases, inl, inr, ◌==◌, ==_iff,
}
use mathlib.Core.List.{flat_map}
use ktkkl.Base.Int.{pos}
use ktkkl.Libc.{show, is_digit}
use ktkkl.Libc.Decimal.{AllDigits, show-AllDigits, show-cons}
use ktkkl.Client.Proxy.{Proxy, scheme}
use ktkkl.Client.Proxy.Escape.{escape, escape_byte, at_to_colon}
use ktkkl.Client.Proxy.Phases.{Plain}

-- What a url says: a user, maybe with a password; the host; a port, if it is not the default.
pub data User : Type 0 where
  nobody : User
  name_only : Bytes → User
  with_password : Bytes → Bytes → User

-- What stands in front of the host.
abbrev pub print_user : User → Bytes
print_user nobody = []
print_user (name_only n) = escape n ++ b'@' ∷ []
print_user (with_password n p) = (escape n ++ b':' ∷ []) ++ (escape p ++ b'@' ∷ [])

abbrev pub print_port : Option ℕ → Bytes
print_port none = []
print_port (some n) = b':' ∷ show n

unfoldable pub print_url : User → Bytes → Option ℕ → Bytes
print_url u host port = scheme ++ (print_user u ++ (host ++ print_port port))

abbrev pub IsFilled : Bytes → Type 0
IsFilled w = 0 < length w

-- Neither the name nor the password is empty.
abbrev pub IsUser : User → Type 0
IsUser nobody = Unit
IsUser (name_only n) = IsFilled n
IsUser (with_password n p) = IsFilled n × IsFilled p

-- A host name has no separator in it.
abbrev pub IsHost : Bytes → Type 0
IsHost h = Plain h × IsFilled h

abbrev pub IsPort : Option ℕ → Type 0
IsPort none = Unit
IsPort (some n) = (1 ≤ n) × (n ≤ 65535)

-- What is read back; the escape of an `@` is read as a colon.
abbrev pub meant : User → Bytes → Option ℕ → Proxy
meant u host port = record {
  username = elim u [
    | nobody ↦ none
    | name_only n ↦ some (map at_to_colon n)
    | with_password n p ↦ some (map at_to_colon n)
  ];
  password = elim u [ with_password n p ↦ some (map at_to_colon p) | _ ↦ none ];
  host = host;
  port = elim port [ none ↦ pos 1080 | some n ↦ pos n ];
}

pub escape_byte-Plain : (c : ℕ) → Plain (escape_byte c) × IsFilled (escape_byte c)
unfolding escape_byte
escape_byte-Plain c = elim (Bool-cases (c == b'%')) [
  | inl e ↦ rw e (omega arith)
  | inr f ↦ rw f (elim (Bool-cases (c == b':')) [
    | inl e ↦ rw e (omega arith)
    | inr g ↦ rw g (elim (Bool-cases (c == b'@')) [
      | inl e ↦ rw e (omega arith)
      | inr h ↦ rw h (ground (arith, ==_iff c b':', ==_iff c b'@'))
    ])
  ])
]

pub escape-Plain : (s : Bytes) → Plain (escape s)
unfolding escape flat_map
escape-Plain [] = tt
escape-Plain (c ∷ s) =
    All-append _ (escape_byte c) (flat_map escape_byte s) (escape_byte-Plain c).0 (escape-Plain s)

pub escape-IsFilled : (s : Bytes) → IsFilled s → IsFilled (escape s)
unfolding escape flat_map
escape-IsFilled [] h = h
escape-IsFilled (c ∷ s) h =
    omega
      (arith, length-append {0} (escape_byte c) (flat_map escape_byte s), (escape_byte-Plain c).1)

pub digit-ne-separator : (c : ℕ) → is_digit c ≡ true → (c ≢ b':') × (c ≢ b'@')
digit-ne-separator c h = ground arith

pub AllDigits-Plain : (s : Bytes) → AllDigits s → Plain s
AllDigits-Plain [] h = tt
AllDigits-Plain (c ∷ s) (d, ds) = (digit-ne-separator c d, AllDigits-Plain s ds)

pub show-IsHost : (n : ℕ) → IsHost (show n)
show-IsHost n =
    let (d, s, e) = show-cons n in (AllDigits-Plain (show n) (show-AllDigits n), rw e (omega arith))
