-- ===== src/Client/Options/Apply.antt =====
-- The bodies of the branches of client_config_line_proc.
use ktkkl.Base.{
  ℕ, suc, ◌+◌, ◌-◌, ◌%◌, ◌^◌, Bool, true, false, ◌||◌, [], ◌∷◌, ◌++◌, Option, none, some, Bytes,
  codes, if◌then◌else◌, length,
}
use ktkkl.Base.Int.{ℤ, pos, negsuc, ltb_ℤ}
use ktkkl.Libc.{same, atoi}
use ktkkl.Client.Config.{
  Config, CStr, heap, strdup, Role, client_pub, client_sub, mode_none, mode_cmd, mode_stdin_line,
  mode_stdin_file, mode_file, mode_null, v31, v311,
}
use ktkkl.Client.Proxy.{Proxy, parse_socks_url}
use ktkkl.Client.Options.Table.{
  Opt, o_port, o_bind, o_cafile, o_capath, o_cert, o_ciphers, o_count, o_debug, o_file, o_help,
  o_host, o_insecure, o_id, o_id_prefix, o_keepalive, o_key, o_stdin_line, o_message, o_inflight,
  o_null, o_version, o_proxy, o_psk, o_psk_identity, o_qos, o_quiet, o_retain, o_stdin_file, o_srv,
  o_topic, o_pub_topic, o_filter_out, o_tls_version, o_username, o_password, o_will_payload,
  o_will_qos, o_will_retain, o_will_topic, o_disable_clean_session, o_no_eol, o_no_retain,
  o_verbose,
}

-- mosquitto_pub_topic_check and mosquitto_sub_topic_check: whether they return MOSQ_ERR_INVAL.
pub record TopicChecks : Type 0 where
  pub pub_invalid : Bytes → Bool
  pub sub_invalid : Bytes → Bool

-- How a branch ends: with `i` as it is, with one `i++`, or by a return.
pub data Step : Type 0 where
  next next_two : Config → Step
  stop : ℕ → Config → Step

-- `if(i==argc-1) return 1; else ...; i++`
abbrev pub with_value : Config → Option Bytes → (Bytes → Step) → Step
with_value cfg none f = stop 1 cfg
with_value cfg (some v) f = f v

-- An option of the one program only: `goto unknown_option` in the other.
abbrev pub sub_only : Role → Config → Step → Step
sub_only client_sub cfg s = s
sub_only client_pub cfg s = stop 1 cfg

abbrev pub pub_only : Role → Config → Step → Step
pub_only client_pub cfg s = s
pub_only client_sub cfg s = stop 1 cfg

-- Only one kind of message may be sent.
abbrev pub no_message_yet : Config → Step → Step
no_message_yet cfg s = elim cfg.pub_mode [ mode_none ↦ s | _ ↦ stop 1 cfg ]

-- `if(ptr) return 1`
abbrev pub unless_set : Config → Option CStr → Step → Step
unless_set cfg none s = s
unless_set cfg (some _) s = stop 1 cfg

-- The integer is stored first and then tested.
abbrev pub in_range : Bool → Config → Step
in_range bad cfg = if bad then stop 1 cfg else next_two cfg

-- An `int` stored in an `unsigned int`.
abbrev pub to_unsigned : ℤ → ℕ
to_unsigned (pos n) = n % 2 ^ 32
to_unsigned (negsuc n) = 2 ^ 32 - 1 - n % 2 ^ 32

-- The three copies of a parsed url, one block for each text that is there.
abbrev pub copy_of : ℕ → Option Bytes → Option CStr
copy_of n none = none
copy_of n (some s) = some (heap n s)

unfoldable pub store_proxy : Config → Proxy → Config
store_proxy cfg p = record cfg {
  socks5_username = copy_of cfg.next p.username;
  socks5_password = copy_of (cfg.next + 1) p.password;
  socks5_host = some (heap (cfg.next + 2) p.host);
  socks5_port = p.port;
  next = cfg.next + 3;
}

unfoldable pub set_version : Config → Bytes → Step
set_version cfg v =
    if same v (codes "mqttv31")
    then next_two (record cfg { protocol_version = v31 })
    else if same v (codes "mqttv311")
    then next_two (record cfg { protocol_version = v311 })
    else stop 1 cfg

unfoldable pub add_topic : Role → TopicChecks → Config → Bytes → Step
add_topic client_pub tc cfg v =
    if tc.pub_invalid v
    then stop 1 cfg
    else next_two (record cfg { topic = some (strdup cfg v); next = suc cfg.next })
add_topic client_sub tc cfg v =
    if tc.sub_invalid v
    then stop 1 cfg
    else next_two (record cfg { topics = cfg.topics ++ strdup cfg v ∷ []; next = suc cfg.next })

unfoldable pub apply_option : Role → TopicChecks → Config → Opt → Option Bytes → Step
apply_option role tc cfg o_port value = with_value cfg value λ v.
    let n = atoi v in in_range (ltb_ℤ n (pos 1) || ltb_ℤ (pos 65535) n) (record cfg { port = n })
apply_option role tc cfg o_bind value =
    with_value cfg value
      λ v. next_two (record cfg { bind_address = some (strdup cfg v); next = suc cfg.next })
apply_option role tc cfg o_cafile value =
    with_value cfg value
      λ v. next_two (record cfg { cafile = some (strdup cfg v); next = suc cfg.next })
apply_option role tc cfg o_capath value =
    with_value cfg value
      λ v. next_two (record cfg { capath = some (strdup cfg v); next = suc cfg.next })
apply_option role tc cfg o_cert value =
    with_value cfg value
      λ v. next_two (record cfg { certfile = some (strdup cfg v); next = suc cfg.next })
apply_option role tc cfg o_ciphers value =
    with_value cfg value
      λ v. next_two (record cfg { ciphers = some (strdup cfg v); next = suc cfg.next })
apply_option role tc cfg o_count value = sub_only role cfg (
    with_value cfg value
      λ v. let n = atoi v in in_range (ltb_ℤ n (pos 1)) (record cfg { msg_count = n }))
apply_option role tc cfg o_debug value = next (record cfg { debug = true })
apply_option role tc cfg o_file value = pub_only role cfg (
    no_message_yet cfg (
      with_value cfg value λ v. next_two (record cfg {
        pub_mode = mode_file;
        file_input = some (strdup cfg v);
        next = suc cfg.next;
      })))
apply_option role tc cfg o_help value = stop 2 cfg
apply_option role tc cfg o_host value =
    with_value cfg value
      λ v. next_two (record cfg { host = some (strdup cfg v); next = suc cfg.next })
apply_option role tc cfg o_insecure value = next (record cfg { insecure = true })
apply_option role tc cfg o_id value = unless_set cfg cfg.id_prefix (
    with_value cfg value
      λ v. next_two (record cfg { id = some (strdup cfg v); next = suc cfg.next }))
apply_option role tc cfg o_id_prefix value = unless_set cfg cfg.id (
    with_value cfg value
      λ v. next_two (record cfg { id_prefix = some (strdup cfg v); next = suc cfg.next }))
apply_option role tc cfg o_keepalive value =
    with_value cfg value
      λ v. let n = atoi v in in_range (ltb_ℤ (pos 65535) n) (record cfg { keepalive = n })
apply_option role tc cfg o_key value =
    with_value cfg value
      λ v. next_two (record cfg { keyfile = some (strdup cfg v); next = suc cfg.next })
apply_option role tc cfg o_stdin_line value =
    pub_only role cfg (no_message_yet cfg (next (record cfg { pub_mode = mode_stdin_line })))
apply_option role tc cfg o_message value = pub_only role cfg (
    no_message_yet cfg (
      with_value cfg value λ v. next_two (record cfg {
        message = some (strdup cfg v);
        msglen = length v;
        pub_mode = mode_cmd;
        next = suc cfg.next;
      })))
apply_option role tc cfg o_inflight value =
    with_value cfg value λ v. next_two (record cfg { max_inflight = to_unsigned (atoi v) })
apply_option role tc cfg o_null value =
    pub_only role cfg (no_message_yet cfg (next (record cfg { pub_mode = mode_null })))
apply_option role tc cfg o_version value = with_value cfg value (set_version cfg)
apply_option role tc cfg o_proxy value =
    with_value cfg value
      λ v. elim (parse_socks_url v) [ none ↦ stop 1 cfg | some p ↦ next_two (store_proxy cfg p) ]
apply_option role tc cfg o_psk value =
    with_value cfg value
      λ v. next_two (record cfg { psk = some (strdup cfg v); next = suc cfg.next })
apply_option role tc cfg o_psk_identity value =
    with_value cfg value
      λ v. next_two (record cfg { psk_identity = some (strdup cfg v); next = suc cfg.next })
apply_option role tc cfg o_qos value =
    with_value cfg value
      λ v. let n = atoi v in in_range (ltb_ℤ n (pos 0) || ltb_ℤ (pos 2) n) (record cfg { qos = n })
apply_option role tc cfg o_quiet value = next (record cfg { quiet = true })
apply_option role tc cfg o_retain value = pub_only role cfg (next (record cfg { retain = true }))
apply_option role tc cfg o_stdin_file value =
    pub_only role cfg (no_message_yet cfg (next (record cfg { pub_mode = mode_stdin_file })))
apply_option role tc cfg o_srv value = next (record cfg { use_srv = true })
apply_option role tc cfg o_topic value = with_value cfg value (add_topic role tc cfg)
apply_option role tc cfg o_pub_topic value = with_value cfg value λ v.
    if tc.pub_invalid v
    then stop 1 cfg
    else next_two (record cfg { topic = some (strdup cfg v); next = suc cfg.next })
apply_option role tc cfg o_filter_out value = sub_only role cfg (
    with_value cfg value λ v.
      if tc.sub_invalid v
      then stop 1 cfg
      else next_two
          (record cfg { filter_outs = cfg.filter_outs ++ strdup cfg v ∷ []; next = suc cfg.next }))
apply_option role tc cfg o_tls_version value =
    with_value cfg value
      λ v. next_two (record cfg { tls_version = some (strdup cfg v); next = suc cfg.next })
apply_option role tc cfg o_username value =
    with_value cfg value
      λ v. next_two (record cfg { username = some (strdup cfg v); next = suc cfg.next })
apply_option role tc cfg o_password value =
    with_value cfg value
      λ v. next_two (record cfg { password = some (strdup cfg v); next = suc cfg.next })
apply_option role tc cfg o_will_payload value = with_value cfg value λ v. next_two (record cfg {
  will_payload = some (strdup cfg v);
  will_payloadlen = length v;
  next = suc cfg.next;
})
apply_option role tc cfg o_will_qos value = with_value cfg value λ v.
    let n = atoi v in in_range (ltb_ℤ n (pos 0) || ltb_ℤ (pos 2) n) (record cfg { will_qos = n })
apply_option role tc cfg o_will_retain value = next (record cfg { will_retain = true })
apply_option role tc cfg o_will_topic value = with_value cfg value λ v.
    if tc.pub_invalid v
    then stop 1 cfg
    else next_two (record cfg { will_topic = some (strdup cfg v); next = suc cfg.next })
apply_option role tc cfg o_disable_clean_session value =
    sub_only role cfg (next (record cfg { clean_session = false }))
apply_option role tc cfg o_no_eol value = sub_only role cfg (next (record cfg { eol = false }))
apply_option role tc cfg o_no_retain value =
    sub_only role cfg (next (record cfg { no_retain = true }))
apply_option role tc cfg o_verbose value = sub_only role cfg (next (record cfg { verbose = true }))
