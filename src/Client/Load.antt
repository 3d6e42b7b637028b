-- ===== src/Client/Load.antt =====
-- client_config_load of src/mqtt/client_shared.cc: the first values, the options of the default file,
-- those of the command line, the tests on what belongs together, and what is filled in.
pub mod Guest
pub mod Login
pub mod Cleanup
pub mod Lines
pub mod Ready
pub mod Invariant
use ktkkl.Base.{
  ℕ, zero, suc, ◌+◌, ◌%◌, ◌^◌, Bool, true, false, ◌&&◌, ◌||◌, not, List, [], ◌∷◌, ◌++◌, Option,
  none, some, ◌≡◌, refl, Bytes, codes, length, if◌then◌else◌, ltb, ◌==◌,
}
use ktkkl.Base.Int.{pos}
use ktkkl.Libc.{show, show_signed, bounded}
use ktkkl.Client.Config.{
  Config, CStr, literal, heap, text, strdup, Role, client_pub, client_sub, Build, init_config,
}
use ktkkl.Client.Options.{line_proc}
use ktkkl.Client.Options.Apply.{TopicChecks}

-- What the program asks of its surroundings: two variables of the environment, the lines of a file as
-- fgets returns them if it can be opened, and one random number.
pub record Machine : Type 0 where
  pub xdg_config_home : Option Bytes
  pub home : Option Bytes
  pub open_lines : Bytes → Option (List Bytes)
  pub lrand48 : ℕ

abbrev file_name : Role → Bytes
file_name client_pub = codes "/mosquitto_pub"
file_name client_sub = codes "/mosquitto_sub"

unfoldable pub default_file : Machine → Role → Option Bytes
default_file m role = elim m.xdg_config_home [
  | some env ↦ some (bounded (length env + 15) (env ++ file_name role))
  | none ↦ elim m.home [
    | some env ↦ some (bounded (length env + 23) (env ++ codes "/.config" ++ file_name role))
    | none ↦ none
  ]
]

-- The loop that cuts off line ends. The code tests the byte in front of the buffer when nothing is left;
-- whatever that byte is, the line stays empty.
unfoldable pub strip_end : Bytes → Bytes
strip_end [] = []
strip_end (c ∷ s) =
    let rest = strip_end s in
    elim rest [ [] ↦ if (c == 10) || (c == 13) then [] else c ∷ [] | d ∷ ds ↦ c ∷ d ∷ ds ]

-- strtok with the one delimiter " ": the token and what is left behind its delimiter.
unfoldable pub word_of : Bytes → Bytes × Bytes
word_of [] = ([], [])
word_of (c ∷ s) = let (w, rest) = word_of s in if c == 32 then ([], s) else (c ∷ w, rest)

unfoldable pub strtok : Bytes → Option (Bytes × Bytes)
unfolding word_of
strtok [] = none
strtok (c ∷ s) = let later = strtok s in if c == 32 then later else some (word_of (c ∷ s))

-- args[1] and, if there is one, args[2]
abbrev pub args_of : Bytes → Option (List Bytes)
args_of line = elim (strtok (strip_end line)) [
  | none ↦ none
  | some (a, rest) ↦ elim (strtok rest) [ none ↦ some (a ∷ []) | some (v, _) ↦ some (a ∷ v ∷ []) ]
]

abbrev pub is_comment : Bytes → Bool
is_comment [] = false
is_comment (c ∷ s) = c == b'#'

unfoldable pub load_line : Build → Role → TopicChecks → Config → Bytes → ℕ × Config
load_line b role tc cfg line =
    if is_comment line
    then (0, cfg)
    else elim (args_of line) [ none ↦ (0, cfg) | some args ↦ line_proc b role tc cfg args ]

unfoldable pub load_lines : Build → Role → TopicChecks → Config → List Bytes → ℕ × Config
load_lines b role tc cfg [] = (0, cfg)
load_lines b role tc cfg (line ∷ lines) =
    let (rc, c) = load_line b role tc cfg line in
    elim rc [ zero ↦ load_lines b role tc c lines | suc n ↦ (suc n, c) ]

unfoldable pub load_file : Machine → Build → Role → TopicChecks → Config → ℕ × Config
load_file m b role tc cfg = elim (default_file m role) [
  | none ↦ (0, cfg)
  | some loc ↦ elim (m.open_lines loc) [
    | none ↦ (0, cfg)
    | some lines ↦ load_lines b role tc cfg lines
  ]
]

-- The options of the file and behind them those of the command line.
unfoldable pub read_options : Machine → Build → Role → TopicChecks → List Bytes → ℕ × Config
unfolding load_file
read_options m b role tc args =
    let (rc, c) = load_file m b role tc init_config in
    elim rc [ zero ↦ line_proc b role tc c args | suc n ↦ (suc n, c) ]

abbrev pub given : Option CStr → Bool
given none = false
given (some _) = true

-- The tests on options that need each other or exclude each other.
unfoldable pub conflict : Build → Config → Bool
conflict b c =
    (given c.will_payload && not (given c.will_topic))
    || ((c.will_retain && not (given c.will_topic))
        || ((b.tls
              && ((given c.certfile && not (given c.keyfile))
                  || (given c.keyfile && not (given c.certfile))))
            || ((b.tls_psk && ((given c.cafile || given c.capath) && given c.psk))
                || (b.tls_psk && (given c.psk && not (given c.psk_identity))))))

-- `if(!ptr) ptr = d`, and the count of blocks where `d` is a new one.
abbrev pub or_new : Option CStr → CStr → Option CStr
or_new none d = some d
or_new (some p) d = some p

abbrev next_after : Option CStr → ℕ → ℕ
next_after none n = suc n
next_after (some p) n = n

unfoldable pub set_host : Config → Config
set_host c = record c { host = or_new c.host (literal (codes "localhost")) }

-- `(lrand48() & 0x0fffffffffffffffL) + 9223372000000000000L`
abbrev pub guest_uid : Machine → ℕ
guest_uid m = m.lrand48 % 2 ^ 60 + 9_223_372_000_000_000_000

unfoldable pub set_username : Machine → Config → Config
set_username m c = record c {
  username = or_new c.username (heap c.next (show (guest_uid m)));
  next = next_after c.username c.next;
}

unfoldable pub set_password : Config → Config
set_password c = record c {
  password = or_new c.password (strdup c (codes "codein.tv"));
  next = next_after c.password c.next;
}

-- The topic of one's own, in a block of 50 bytes: `none` where sprintf writes past its end. There is a
-- user name by now.
unfoldable pub own_topic : Config → Option CStr → Option (ℕ × Config)
own_topic c none = none
own_topic c (some u) =
    if ltb 49 (12 + length (text u))
    then none
    else some (
      0,
      record c {
        topics = heap c.next (codes "codein/live/" ++ text u) ∷ [];
        topic = or_new c.topic (heap (suc c.next) (codes "codein/live"));
        next = next_after c.topic (suc c.next);
      },
    )

-- With topics given and none to publish to, the first is used for both: one block, two pointers.
unfoldable pub subscribe_to : Config → List CStr → Option (ℕ × Config)
unfolding own_topic
subscribe_to c [] = own_topic c c.username
subscribe_to c (t ∷ ts) = some (0, record c { topic = or_new c.topic t })

unfoldable pub fill_topics : Role → Config → Option (ℕ × Config)
unfolding subscribe_to
fill_topics client_pub c = some (0, c)
fill_topics client_sub c =
    if not c.clean_session && (given c.id_prefix || not (given c.id))
    then some (1, c)
    else subscribe_to c c.topics

-- What follows the options.
unfoldable pub complete : Machine → Build → Role → ℕ × Config → Option (ℕ × Config)
unfolding set_host set_username set_password
complete m b role (suc n, c) = some (suc n, c)
complete m b role (zero, c) =
    if conflict b c
    then some (1, c)
    else fill_topics role (set_password (set_username m (set_host c)))

-- `none` is a write past the end of a block.
unfoldable pub client_config_load :
    Machine → Build → Role → TopicChecks → List Bytes → Option (ℕ × Config)
unfolding read_options complete
client_config_load m b role tc args = complete m b role (read_options m b role tc args)
