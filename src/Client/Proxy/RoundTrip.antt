-- ===== src/Client/Proxy/RoundTrip.antt =====
-- A proxy url of each of the six forms that a comment in mosquitto__parse_socks_url of
-- src/mqtt/client_shared.cc lists is read back.
use ktkkl.Base.{
  ℕ, Bool, true, false, Option, none, some, [], ◌∷◌, ◌++◌, ◌≡◌, refl, ap, ◌∙◌, arith, Bytes, map,
  length, length-append, append_assoc, append-nil, ltb, lt→ltb,
}
use ktkkl.Base.Int.{pos}
use ktkkl.Libc.{show}
use ktkkl.Libc.Decimal.{atoi-show}
use ktkkl.Client.Proxy.{
  Proxy, Scan, start_scan, scan_loop, remainder, finish, port_number, urldecode_ptr,
  parse_authority, parse_socks_url,
}
use ktkkl.Client.Proxy.Escape.{escape, at_to_colon, urldecode-escape}
use ktkkl.Client.Proxy.Phases.{last_hop, tail_word, scan}
use ktkkl.Client.Proxy.Url.{
  User, print_user, print_url, IsFilled, IsUser, IsHost, IsPort, meant, show-IsHost, nobody,
  name_only, with_password,
}
use ktkkl.Client.Proxy.Hops.{first, behind_user, behind_host, user_phase, port_phase}

module _ (pre w : Bytes) (filled : IsFilled w) (a : Bool) (u p : Option Bytes) where
  more_left : ltb (length pre) (length (pre ++ w)) ≡ true
  more_left = lt→ltb _ _ (omega (arith, length-append {0} pre w))

  -- The last word is the host, or the port of a host before it.
  remainder_host : remainder (pre ++ w) (scan (length pre) a u p none none) ≡ (some w, none)
  unfolding remainder
  remainder_host = rw (more_left, tail_word pre w) refl

  remainder_port :
      (h : Bytes) → remainder (pre ++ w) (scan (length pre) a u p (some h) none) ≡ (some h, some w)
  unfolding remainder
  remainder_port h = rw (more_left, tail_word pre w) refl

  remainder_first :
      (h : Bytes) → remainder (pre ++ w) (scan (length pre) a u p none (some h)) ≡ (some h, some w)
  unfolding remainder
  remainder_first h = rw (more_left, tail_word pre w) refl

urldecode_ptr-escape :
    (s : Bytes) → urldecode_ptr (some (escape s)) ≡ some (some (map at_to_colon s))
unfolding urldecode_ptr
urldecode_ptr-escape s = rw (urldecode-escape s, urldecode_ptr) refl

urldecode_ptr-none : urldecode_ptr none ≡ some none
unfolding urldecode_ptr
urldecode_ptr-none = refl

port_number-show : (n : ℕ) → IsPort (some n) → port_number (some (show n)) ≡ some (pos n)
unfolding port_number
port_number-show n (lo, hi) = rw (atoi-show n (omega arith)) (ground arith)

abbrev port_text : Option ℕ → Option Bytes
port_text none = none
port_text (some n) = some (show n)

port_lem :
    (port : Option ℕ)
    → IsPort port
    → port_number (port_text port) ≡ some (elim port [ none ↦ pos 1080 | some n ↦ pos n ])
port_lem none h = unfold port_number in refl
port_lem (some n) h = port_number-show n h

regroup : (pre h port : Bytes) → pre ++ (h ++ b':' ∷ port) ≡ (pre ++ (h ++ b':' ∷ [])) ++ port
regroup pre h port = simp append_assoc

-- The end of the function, for each user.
module _ (h : Bytes) (port : Option ℕ) (ok : IsPort port) (k : ℕ) (a : Bool)
    (host x : Option Bytes) where
  finish_nobody :
      finish (some h, port_text port) (scan k a none none host x) ≡ some (meant nobody h port)
  unfolding finish urldecode_ptr
  finish_nobody = rw (port_lem port ok, finish) refl

  finish_name :
      (n : Bytes)
      → finish (some h, port_text port) (scan k a (some (escape n)) none host x)
        ≡ some (meant (name_only n) h port)
  unfolding finish
  finish_name n = rw (urldecode_ptr-escape n, urldecode_ptr-none, port_lem port ok, finish) refl

  finish_password :
      (n p : Bytes)
      → finish (some h, port_text port) (scan k a (some (escape n)) (some (escape p)) host x)
        ≡ some (meant (with_password n p) h port)
  unfolding finish
  finish_password n p =
      rw (urldecode_ptr-escape n, urldecode_ptr-escape p, port_lem port ok, finish) refl

-- The loop and what follows it.
parsed :
    (str : Bytes) (v : Scan) (parts : Option Bytes × Option Bytes) (q : Proxy)
    → scan_loop str str 0 start_scan ≡ some v
    → remainder str v ≡ parts
    → finish parts v ≡ some q
    → parse_authority str ≡ some q
unfolding parse_authority
parsed str v parts q s r f = rw (s, r, f, parse_authority) refl

parse_user_host :
    (u : User) (h : Bytes)
    → IsUser u
    → IsHost h
    → parse_authority (print_user u ++ h) ≡ some (meant u h none)
unfolding start_scan
parse_user_host nobody h hu (p, f) =
    parsed h (behind_user nobody 0) _ _ (last_hop [] h first p)
      (remainder_host [] h f false none none) (finish_nobody h none tt 0 false none none)
parse_user_host (name_only n) h hu (p, f) =
    let pre = print_user (name_only n) in
    parsed (pre ++ h) _ _ _
      (user_phase (name_only n) h hu ∙ last_hop pre h (behind_user (name_only n)) p)
      (remainder_host pre h f true _ _) (finish_name h none tt (length pre) true none none n)
parse_user_host (with_password n q) h hu (p, f) =
    let pre = print_user (with_password n q) in
    parsed (pre ++ h) _ _ _
      (user_phase (with_password n q) h hu ∙ last_hop pre h (behind_user (with_password n q)) p)
      (remainder_host pre h f true _ _) (finish_password h none tt (length pre) true none none n q)

parse_user_host_port :
    (u : User) (h : Bytes) (n : ℕ)
    → IsUser u
    → IsHost h
    → IsPort (some n)
    → parse_authority (print_user u ++ (h ++ b':' ∷ show n)) ≡ some (meant u h (some n))
unfolding start_scan
parse_user_host_port nobody h n hu hh ok =
    let pre = h ++ b':' ∷ [] in
    parsed _ _ _ _ (port_phase nobody h n hu hh)
      (ap (λ s. remainder s (behind_host nobody h (length pre))) (regroup [] h (show n))
        ∙ remainder_first pre (show n) (show-IsHost n).1 false none none h)
      (finish_nobody h (some n) ok (length pre) false none (some h))
parse_user_host_port (name_only m) h n hu hh ok =
    let u = name_only m in
    let pre = print_user u ++ (h ++ b':' ∷ []) in
    parsed _ _ _ _ (port_phase u h n hu hh)
      (ap (λ s. remainder s (behind_host u h (length pre))) (regroup (print_user u) h (show n))
        ∙ remainder_port pre (show n) (show-IsHost n).1 true (some (escape m)) none h)
      (finish_name h (some n) ok (length pre) true (some h) none m)
parse_user_host_port (with_password m q) h n hu hh ok =
    let u = with_password m q in
    let pre = print_user u ++ (h ++ b':' ∷ []) in
    parsed _ _ _ _ (port_phase u h n hu hh)
      (ap (λ s. remainder s (behind_host u h (length pre))) (regroup (print_user u) h (show n))
        ∙ remainder_port pre (show n) (show-IsHost n).1 true (some (escape m)) (some (escape q)) h)
      (finish_password h (some n) ok (length pre) true (some h) none m q)

-- A url in any of the six forms, printed with its name and password escaped, is read back as it was meant,
-- with 1080 where it has no port and a colon for each at sign. Conditions: no part is empty, the host
-- holds no colon and no at sign, the port lies between 1 and 65535.
pub parse_socks_url-print_url :
    (u : User) (h : Bytes) (port : Option ℕ)
    → IsUser u
    → IsHost h
    → IsPort port
    → parse_socks_url (print_url u h port) ≡ some (meant u h port)
unfolding parse_socks_url print_url
parse_socks_url-print_url u h none hu hh ok =
    ap (λ s. parse_authority (print_user u ++ s)) (append-nil h) ∙ parse_user_host u h hu hh
parse_socks_url-print_url u h (some n) hu hh ok = parse_user_host_port u h n hu hh ok
