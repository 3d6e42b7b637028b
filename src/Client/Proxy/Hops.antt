-- ===== src/Client/Proxy/Hops.antt =====
-- The loop of mosquitto__parse_socks_url in src/mqtt/client_shared.cc over a printed url, part by part.
use ktkkl.Base.{
  ℕ, true, false, none, some, [], ◌∷◌, ◌++◌, ◌≡◌, refl, ap, ◌∙◌, Bytes, length, append_assoc,
}
use ktkkl.Libc.{show}
use ktkkl.Client.Proxy.{Scan}
use ktkkl.Client.Proxy.Escape.{escape}
use ktkkl.Client.Proxy.Phases.{
  run, hop, last_hop, scan, colon_first, colon_host, at_name, at_password,
}
use ktkkl.Client.Proxy.Url.{
  User, print_user, IsUser, IsHost, escape-Plain, escape-IsFilled, show-IsHost, nobody, name_only,
  with_password,
}

-- The state of the loop behind the user, and behind a host with a port.
abbrev pub first : ℕ → Scan
first k = scan k false none none none none

abbrev pub behind_user : User → ℕ → Scan
behind_user nobody k = first k
behind_user (name_only n) k = scan k true (some (escape n)) none none none
behind_user (with_password n p) k = scan k true (some (escape n)) (some (escape p)) none none

abbrev pub behind_host : User → Bytes → ℕ → Scan
behind_host nobody h k = scan k false none none none (some h)
behind_host (name_only n) h k = scan k true (some (escape n)) none (some h) none
behind_host (with_password n p) h k = scan k true (some (escape n)) (some (escape p)) (some h) none

pub user_phase :
    (u : User) (rest : Bytes)
    → IsUser u
    → run [] first (print_user u ++ rest) ≡ run (print_user u) (behind_user u) rest
user_phase nobody rest h = refl
user_phase (name_only n) rest h =
    ap (run [] first) (append_assoc (escape n) (b'@' ∷ []) rest)
    ∙ hop [] (escape n) rest b'@' first (behind_user (name_only n)) (escape-Plain n)
        (at_name [] (escape n) rest (escape-IsFilled n h))
user_phase (with_password n p) rest (hn, hp) =
    let en = escape n in
    let ep = escape p in
    let text : ((en ++ b':' ∷ []) ++ (ep ++ b'@' ∷ [])) ++ rest ≡ en ++ b':' ∷ (ep ++ b'@' ∷ rest) =
      simp append_assoc in
    ap (run [] first) text
    ∙ (hop [] en (ep ++ b'@' ∷ rest) b':' first (behind_host nobody en) (escape-Plain n)
          (colon_first [] en (ep ++ b'@' ∷ rest) (escape-IsFilled n hn))
        ∙ hop (en ++ b':' ∷ []) ep rest b'@' (behind_host nobody en)
            (behind_user (with_password n p)) (escape-Plain p)
            (at_password (en ++ b':' ∷ []) ep rest (escape-IsFilled p hp) en))

pub host_phase :
    (u : User) (h port : Bytes)
    → IsHost h
    → run (print_user u) (behind_user u) (h ++ b':' ∷ port)
      ≡ run (print_user u ++ (h ++ b':' ∷ [])) (behind_host u h) port
host_phase nobody h port (p, f) =
    hop [] h port b':' first (behind_host nobody h) p (colon_first [] h port f)
host_phase (name_only n) h port (p, f) =
    let u = name_only n in
    hop (print_user u) h port b':' (behind_user u) (behind_host u h) p
      (colon_host (print_user u) h port f (some (escape n)) none)
host_phase (with_password n q) h port (p, f) =
    let u = with_password n q in
    hop (print_user u) h port b':' (behind_user u) (behind_host u h) p
      (colon_host (print_user u) h port f (some (escape n)) (some (escape q)))

-- The loop over user, host and port.
pub port_phase :
    (u : User) (h : Bytes) (n : ℕ)
    → IsUser u
    → IsHost h
    → run [] first (print_user u ++ (h ++ b':' ∷ show n))
      ≡ some (behind_host u h (length (print_user u ++ (h ++ b':' ∷ []))))
port_phase u h n hu hh =
    user_phase u (h ++ b':' ∷ show n) hu
    ∙ (host_phase u h (show n) hh
        ∙ last_hop (print_user u ++ (h ++ b':' ∷ [])) (show n) (behind_host u h) (show-IsHost n).0)
