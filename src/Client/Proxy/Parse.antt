-- ===== src/Client/Proxy/Parse.antt =====
-- The port of a url that is accepted.
use ktkkl.Base.{ℕ, ◌≤◌, Option, none, some, ◌≡◌, arith, Bytes, Option-cases, inl, inr, drop}
use ktkkl.Base.Int.{ℤ, pos_part, neg_part}
use ktkkl.Client.Proxy.{
  Proxy, Scan, start_scan, scan_loop, remainder, port_number, finish, parse_authority,
  parse_socks_url,
}

abbrev pub Between : ℕ → ℕ → ℤ → Type 0
Between lo hi z = (lo ≤ pos_part z) × (pos_part z ≤ hi) × (neg_part z ≡ 0)

port_number-Between : (o : Option Bytes) (n : ℤ) → port_number o ≡ some n → Between 1 65535 n
unfolding port_number
port_number-Between none n h = ground arith
port_number-Between (some p) n h = ground arith

finish-Between :
    (h : Option Bytes) (o : Option Bytes) (v : Scan) (p : Proxy)
    → finish (h, o) v ≡ some p
    → Between 1 65535 p.port
unfolding finish
finish-Between none o v p e = cc
finish-Between (some h) o v p e = ground (arith, port_number-Between o p.port)

authority-Between :
    (str : Bytes) (p : Proxy) → parse_authority str ≡ some p → Between 1 65535 p.port
unfolding parse_authority
authority-Between str p e = elim (Option-cases (scan_loop str str 0 start_scan)) [
  | inl q ↦ let r = rw (q, parse_authority) at e in cc
  | inr (v, q) ↦
      finish-Between (remainder str v).0 (remainder str v).1 v p (rw (q, parse_authority) at e)
]

-- Of a proxy url that is accepted the port lies between 1 and 65535.
pub parse_socks_url-Between :
    (url : Bytes) (p : Proxy) → parse_socks_url url ≡ some p → Between 1 65535 p.port
unfolding parse_socks_url
parse_socks_url-Between url p e = ground (arith, authority-Between (drop 10 url) p)
