-- ===== src/Client/Proxy.antt =====
-- mosquitto__urldecode and mosquitto__parse_socks_url of src/mqtt/client_shared.cc.
pub mod Decode
pub mod Escape
pub mod Parse
pub mod Phases
pub mod Url
pub mod Hops
pub mod RoundTrip
use ktkkl.Base.{
  ℕ, zero, suc, ◌+◌, ◌-◌, ◌≡◌, refl, Bool, true, false, ◌&&◌, ◌||◌, List, [], ◌∷◌, ◌++◌, Option,
  none, some, Bytes, codes, ltb, leb, ◌==◌, if◌then◌else◌, length, take, drop, get_or,
}
use ktkkl.Base.Int.{ℤ, pos, ltb_ℤ}
use ktkkl.Libc.{same_prefix, atoi}

-- The byte that `%ab` is replaced by.
unfoldable pub escaped : ℕ → ℕ → Option ℕ
escaped a b =
    if (a == b'2') && (b == b'5')
    then some b'%'
    else if (a == b'3') && ((b == b'A') || (b == b'a'))
    then some b':'
    else if (a == b'4') && (b == b'0')
    then some b':'
    else none

abbrev pub byte_at : Bytes → ℕ → ℕ
byte_at str i = get_or str i 0

-- str[i] = r, with the text behind the escape moved up by two
pub shorten : Bytes → ℕ → ℕ → Bytes
shorten str i r = take i str ++ r ∷ drop (i + 3) str

-- The loop over `i`, in the text itself; `none` is `return 1`. A round makes `i` larger and the text no
-- longer, so there are at most as many rounds as bytes.
pub decode_loop : ℕ → Bytes → ℕ → Option Bytes
decode_loop zero str i = none
decode_loop (suc fuel) str i = elim (ltb i (length str)) [
  | false ↦ some str
  | true ↦ elim (byte_at str i == b'%') [
    | false ↦ decode_loop fuel str (i + 1)
    | true ↦ elim (leb (length str) (i + 2)) [
      | true ↦ none
      | false ↦ elim (escaped (byte_at str (i + 1)) (byte_at str (i + 2))) [
        | none ↦ none
        | some r ↦ decode_loop fuel (shorten str i r) (i + 1)
      ]
    ]
  ]
]

-- strchr(str, c)
abbrev pub contains : ℕ → Bytes → Bool
contains c [] = false
contains c (d ∷ s) = (d == c) || contains c s

pub urldecode : Bytes → Option Bytes
unfolding decode_loop escaped shorten
urldecode str = if contains b'%' str then decode_loop (suc (length str)) str 0 else some str

-- A null pointer is left alone.
pub urldecode_ptr : Option Bytes → Option (Option Bytes)
unfolding urldecode
urldecode_ptr none = some none
urldecode_ptr (some str) = elim (urldecode str) [ none ↦ none | some t ↦ some (some t) ]

-- The variables of the loop over the url.
pub record Scan : Type 0 where
  pub start : ℕ
  pub have_auth : Bool
  pub username : Option Bytes
  pub password : Option Bytes
  pub host : Option Bytes
  pub username_or_host : Option Bytes

-- memcpy of the bytes from `start` up to `i`
abbrev pub between : Bytes → ℕ → ℕ → Bytes
between str start i = take (i - start) (drop start str)

-- `str[i] == ':'`; `none` is `goto cleanup`.
pub on_colon : Bytes → ℕ → Scan → Option Scan
on_colon str i v =
    if i == v.start
    then none
    else if v.have_auth
    then elim v.host [
      | some _ ↦ none
      | none ↦ some (record v { host = some (between str v.start i); start = i + 1 })
    ]
    else elim v.username_or_host [
      | none ↦ some (record v { username_or_host = some (between str v.start i); start = i + 1 })
      | some _ ↦ some v
    ]

-- `str[i] == '@'`
pub on_at : Bytes → ℕ → Scan → Option Scan
on_at str i v = if i == v.start then none else elim v.username_or_host [
  | some u ↦ some (record v {
    have_auth = true;
    username = some u;
    username_or_host = none;
    password = some (between str v.start i);
    start = i + 1;
  })
  | none ↦ elim v.username [
    | some _ ↦ none
    | none ↦
        some (record v { have_auth = true; username = some (between str v.start i); start = i + 1 })
  ]
]

pub scan_step : Bytes → ℕ → ℕ → Scan → Option Scan
unfolding on_colon on_at
scan_step str i c v =
    if c == b':' then on_colon str i v else if c == b'@' then on_at str i v else some v

-- The loop: `rest` holds the bytes from `i` on.
pub scan_loop : Bytes → Bytes → ℕ → Scan → Option Scan
scan_loop str [] i v = some v
scan_loop str (c ∷ rest) i v = elim (scan_step str i c v) [
  | none ↦ none
  | some v' ↦ scan_loop str rest (i + 1) v'
]

pub record Proxy : Type 0 where
  pub username : Option Bytes
  pub password : Option Bytes
  pub host : Bytes
  pub port : ℤ

-- The remainder behind `start`: the host and the port that it settles.
pub remainder : Bytes → Scan → Option Bytes × Option Bytes
remainder str v =
    let tail = between str v.start (length str) in
    if ltb v.start (length str)
    then elim v.host [
      | some h ↦ (some h, some tail)
      | none ↦ elim v.username_or_host [ some h ↦ (some h, some tail) | none ↦ (some tail, none) ]
    ]
    else (v.host, none)

-- 1080 where no port is given; `none` for one out of range.
unfoldable pub port_number : Option Bytes → Option ℤ
port_number none = some (pos 1080)
port_number (some p) =
    let n = atoi p in if ltb_ℤ n (pos 1) || ltb_ℤ (pos 65535) n then none else some n

-- The user name and the password are decoded, then the port is read.
pub finish : Option Bytes × Option Bytes → Scan → Option Proxy
finish (none, port) v = none
finish (some h, port) v = elim (urldecode_ptr v.username) [
  | none ↦ none
  | some u ↦ elim (urldecode_ptr v.password) [
    | none ↦ none
    | some p ↦ elim (port_number port) [
      | none ↦ none
      | some n ↦ some (record { username = u; password = p; host = h; port = n })
    ]
  ]
]

pub start_scan : Scan
start_scan = record {
  start = 0;
  have_auth = false;
  username = none;
  password = none;
  host = none;
  username_or_host = none;
}

-- The text behind the scheme.
pub parse_authority : Bytes → Option Proxy
parse_authority str = elim (scan_loop str str 0 start_scan) [
  | none ↦ none
  | some v ↦ finish (remainder str v) v
]

abbrev pub scheme : Bytes
scheme = codes "socks5h://"

-- `none` is `return 1`.
pub parse_socks_url : Bytes → Option Proxy
parse_socks_url url = if same_prefix 10 url scheme then parse_authority (drop 10 url) else none

no_escape_for_at : urldecode (codes "a%40b%25") ≡ some (codes "a:b%")
unfolding urldecode
no_escape_for_at = refl

pub whole_url :
    parse_socks_url (codes "socks5h://me:pw@gate:99")
    ≡ some (record {
      username = some (codes "me");
      password = some (codes "pw");
      host = codes "gate";
      port = pos 99;
    })
unfolding parse_socks_url parse_authority start_scan scan_loop scan_step remainder finish
    port_number urldecode_ptr atoi
whole_url = refl
