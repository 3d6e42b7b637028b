-- ===== src/Client/Options/Valid.antt =====
-- What every configuration satisfies that the options of src/mqtt/client_shared.cc lead to.
use ktkkl.Base.{ℕ, ◌≤◌, false, Option, none, some, ◌≡◌, ◌≢◌, refl, ◌⊎◌, inl, arith, ◌||◌, length}
use ktkkl.Base.Int.{ℤ, pos, negsuc, pos_part, neg_part, ltb_ℤ}
use ktkkl.Client.Config.{Config, CStr, text, MsgMode, mode_cmd, mode_file, init_config}
use ktkkl.Client.Proxy.Parse.{Between}

-- How long the text of a pointer is; a null pointer has length 0.
abbrev pub size : Option CStr → ℕ
size none = 0
size (some s) = length (text s)

-- The source of the message to publish fits the mode.
abbrev pub Sourced : MsgMode → Option CStr → Option CStr → Type 0
Sourced mode_cmd message file = (message ≢ none) × (file ≡ none)
Sourced mode_file message file = (message ≡ none) × (file ≢ none)
Sourced _ message file = (message ≡ none) × (file ≡ none)

-- The port and the two qualities of service are in range, the keep-alive time has an upper bound and
-- the message count is not negative; at most one of id and id prefix is set; the lengths are those of
-- the texts; the message has the source that its mode says; a proxy's port is in range.
abbrev pub IsValid : Config → Type 0
IsValid c =
    Between 1 65535 c.port
    × Between 0 2 c.qos
    × Between 0 2 c.will_qos
    × (pos_part c.keepalive ≤ 65535)
    × (neg_part c.msg_count ≡ 0)
    × ((c.id ≡ none) ⊎ (c.id_prefix ≡ none))
    × (c.msglen ≡ size c.message)
    × (c.will_payloadlen ≡ size c.will_payload)
    × Sourced c.pub_mode c.message c.file_input
    × ((c.socks5_host ≡ none) ⊎ Between 1 65535 c.socks5_port)

pub init_config-IsValid : IsValid init_config
unfolding init_config
init_config-IsValid = (
  omega arith,
  omega arith,
  omega arith,
  omega arith,
  refl,
  inl refl,
  refl,
  refl,
  (refl, refl),
  inl refl,
)

-- A return code other than 0.
abbrev pub Fails : ℕ → Config → Type 0
Fails rc c = rc ≢ 0

pub range_of :
    (lo hi : ℕ) (n : ℤ) → (ltb_ℤ n (pos lo) || ltb_ℤ (pos hi) n) ≡ false → Between lo hi n
range_of lo hi (pos n) h = ground arith
range_of lo hi (negsuc n) h = ground arith

pub below_max : (n : ℤ) → ltb_ℤ (pos 65535) n ≡ false → pos_part n ≤ 65535
below_max (pos n) h = ground arith
below_max (negsuc n) h = omega arith

pub positive : (n : ℤ) → ltb_ℤ n (pos 1) ≡ false → neg_part n ≡ 0
positive (pos n) h = refl
positive (negsuc n) h = ground arith
