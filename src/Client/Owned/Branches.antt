-- ===== src/Client/Owned/Branches.antt =====
-- That every option of client_config_line_proc in src/mqtt/client_shared.cc keeps the ownership of the
-- strings.
use ktkkl.Base.{
  [], ℕ, suc, ◌+◌, ◌≤◌, arith, Option, none, some, ◌≡◌, refl, inl, inr, Bool-cases, codes, Bytes,
}
use ktkkl.Libc.{same, atoi}
use ktkkl.Client.Config.{Config, CStr, heap, Role, client_pub, client_sub}
use ktkkl.Client.Proxy.{Proxy, parse_socks_url}
use ktkkl.Client.Options.Table.{
  Opt, o_port, o_bind, o_cafile, o_capath, o_cert, o_ciphers, o_count, o_debug, o_file, o_help,
  o_host, o_insecure, o_id, o_id_prefix, o_keepalive, o_key, o_stdin_line, o_message, o_inflight,
  o_null, o_version, o_proxy, o_psk, o_psk_identity, o_qos, o_quiet, o_retain, o_stdin_file, o_srv,
  o_topic, o_pub_topic, o_filter_out, o_tls_version, o_username, o_password, o_will_payload,
  o_will_qos, o_will_retain, o_will_topic, o_disable_clean_session, o_no_eol, o_no_retain,
  o_verbose,
}
use ktkkl.Client.Options.Apply.{
  TopicChecks, Step, next_two, stop, store_proxy, set_version, add_topic, copy_of, apply_option,
}
use ktkkl.Client.Owned.{IsOwned, unchanged, adds, weigh, weight, total_of-append}
use ktkkl.Client.Options.Keep.{
  with_value-Keeps, sub_only-Keeps, pub_only-Keeps, unless_set-Keeps, in_range-Keeps, checked-Keeps,
  no_message-Keeps, Keeps,
}

-- What a return leaves behind is owned, too.
abbrev pub Left : ℕ → Config → Type 0
Left rc c = IsOwned c

-- The text of a copy, if there is one.
abbrev or_empty : Option Bytes → Bytes
or_empty none = []
or_empty (some s) = s

copy_of_le :
    (w : CStr → ℕ) (n : ℕ) (o : Option Bytes) → weight w (copy_of n o) ≤ w (heap n (or_empty o))
copy_of_le w n none = omega arith
copy_of_le w n (some s) = omega arith

module _ (role : Role) (tc : TopicChecks) (cfg : Config) (v : IsOwned cfg) where
  -- A branch that duplicates its value into one field.
  stores :
      {c : Config} (s : Bytes)
      → c.next ≡ suc cfg.next
      → ((w : CStr → ℕ) → weigh w c ≤ weigh w cfg + w (heap cfg.next s))
      → IsOwned c
  stores s n more = adds s n more v

  topic-Keeps : (r : Role) (s : Bytes) → Keeps IsOwned Left (add_topic r tc cfg s)
  unfolding add_topic
  topic-Keeps client_pub s =
      checked-Keeps IsOwned Left cfg v (tc.pub_invalid s) _ (stores s refl λ w. omega arith)
  topic-Keeps client_sub s =
      checked-Keeps IsOwned Left cfg v (tc.sub_invalid s) _
        (stores s refl λ w. omega (arith, total_of-append w cfg.topics (heap cfg.next s)))

  version-Keeps : (s : Bytes) → Keeps IsOwned Left (set_version cfg s)
  unfolding set_version
  version-Keeps s = elim (Bool-cases (same s (codes "mqttv31"))) [
    | inl t ↦ rw t (unchanged refl refl v)
    | inr f ↦ rw f (elim (Bool-cases (same s (codes "mqttv311"))) [
      | inl t ↦ rw t (unchanged refl refl v)
      | inr g ↦ rw g v
    ])
  ]

  proxy-IsOwned : (p : Proxy) → IsOwned (store_proxy cfg p)
  unfolding store_proxy
  proxy-IsOwned p =
      let n = cfg.next in
      let one : Config = record cfg { socks5_username = copy_of n p.username; next = n + 1 } in
      let two : Config = record one {
        socks5_password = copy_of (n + 1) p.password;
        next = n + 2;
      } in
      let v1 : IsOwned one =
        adds (or_empty p.username) (omega arith) (λ w. omega (arith, copy_of_le w n p.username))
          v in
      let v2 : IsOwned two =
        adds (or_empty p.password) (omega arith)
          (λ w. omega (arith, copy_of_le w (n + 1) p.password)) v1 in
      adds p.host (omega arith) (λ w. omega arith) v2

  abbrev proxy_step : Option Proxy → Step
  proxy_step o = elim o [ none ↦ stop 1 cfg | some p ↦ next_two (store_proxy cfg p) ]

  proxy-Keeps : (o : Option Proxy) → Keeps IsOwned Left (proxy_step o)
  proxy-Keeps none = v
  proxy-Keeps (some p) = proxy-IsOwned p

  pub option-Keeps :
      (o : Opt) (value : Option Bytes) → Keeps IsOwned Left (apply_option role tc cfg o value)
  unfolding apply_option
  option-Keeps o_port value = with_value-Keeps IsOwned Left cfg v value _ λ t.
      in_range-Keeps IsOwned Left (record cfg { port = atoi t }) (unchanged refl refl v) _
        (λ e. unchanged refl refl v)
  option-Keeps o_bind value =
      with_value-Keeps IsOwned Left cfg v value _ (λ s. stores s refl λ w. omega arith)
  option-Keeps o_cafile value =
      with_value-Keeps IsOwned Left cfg v value _ (λ s. stores s refl λ w. omega arith)
  option-Keeps o_capath value =
      with_value-Keeps IsOwned Left cfg v value _ (λ s. stores s refl λ w. omega arith)
  option-Keeps o_cert value =
      with_value-Keeps IsOwned Left cfg v value _ (λ s. stores s refl λ w. omega arith)
  option-Keeps o_ciphers value =
      with_value-Keeps IsOwned Left cfg v value _ (λ s. stores s refl λ w. omega arith)
  option-Keeps o_host value =
      with_value-Keeps IsOwned Left cfg v value _ (λ s. stores s refl λ w. omega arith)
  option-Keeps o_key value =
      with_value-Keeps IsOwned Left cfg v value _ (λ s. stores s refl λ w. omega arith)
  option-Keeps o_psk value =
      with_value-Keeps IsOwned Left cfg v value _ (λ s. stores s refl λ w. omega arith)
  option-Keeps o_psk_identity value =
      with_value-Keeps IsOwned Left cfg v value _ (λ s. stores s refl λ w. omega arith)
  option-Keeps o_tls_version value =
      with_value-Keeps IsOwned Left cfg v value _ (λ s. stores s refl λ w. omega arith)
  option-Keeps o_username value =
      with_value-Keeps IsOwned Left cfg v value _ (λ s. stores s refl λ w. omega arith)
  option-Keeps o_password value =
      with_value-Keeps IsOwned Left cfg v value _ (λ s. stores s refl λ w. omega arith)
  option-Keeps o_will_payload value =
      with_value-Keeps IsOwned Left cfg v value _ (λ s. stores s refl λ w. omega arith)
  option-Keeps o_count value = sub_only-Keeps IsOwned Left cfg v role _ (
      with_value-Keeps IsOwned Left cfg v value _ λ t.
        in_range-Keeps IsOwned Left (record cfg { msg_count = atoi t }) (unchanged refl refl v) _
          (λ e. unchanged refl refl v))
  option-Keeps o_debug value = unchanged refl refl v
  option-Keeps o_file value = pub_only-Keeps IsOwned Left cfg v role _ (
      no_message-Keeps IsOwned Left cfg v _
        λ e. with_value-Keeps IsOwned Left cfg v value _ (λ s. stores s refl λ w. omega arith))
  option-Keeps o_help value = v
  option-Keeps o_insecure value = unchanged refl refl v
  option-Keeps o_id value =
      unless_set-Keeps IsOwned Left cfg v cfg.id_prefix _
        λ e. with_value-Keeps IsOwned Left cfg v value _ (λ s. stores s refl λ w. omega arith)
  option-Keeps o_id_prefix value =
      unless_set-Keeps IsOwned Left cfg v cfg.id _
        λ e. with_value-Keeps IsOwned Left cfg v value _ (λ s. stores s refl λ w. omega arith)
  option-Keeps o_keepalive value = with_value-Keeps IsOwned Left cfg v value _ λ t.
      in_range-Keeps IsOwned Left (record cfg { keepalive = atoi t }) (unchanged refl refl v) _
        (λ e. unchanged refl refl v)
  option-Keeps o_stdin_line value =
      pub_only-Keeps IsOwned Left cfg v role _
        (no_message-Keeps IsOwned Left cfg v _ λ e. unchanged refl refl v)
  option-Keeps o_message value = pub_only-Keeps IsOwned Left cfg v role _ (
      no_message-Keeps IsOwned Left cfg v _
        λ e. with_value-Keeps IsOwned Left cfg v value _ (λ s. stores s refl λ w. omega arith))
  option-Keeps o_inflight value =
      with_value-Keeps IsOwned Left cfg v value _ (λ s. unchanged refl refl v)
  option-Keeps o_null value =
      pub_only-Keeps IsOwned Left cfg v role _
        (no_message-Keeps IsOwned Left cfg v _ λ e. unchanged refl refl v)
  option-Keeps o_version value = with_value-Keeps IsOwned Left cfg v value _ version-Keeps
  option-Keeps o_proxy value =
      with_value-Keeps IsOwned Left cfg v value _ (λ t. proxy-Keeps (parse_socks_url t))
  option-Keeps o_qos value = with_value-Keeps IsOwned Left cfg v value _ λ t.
      in_range-Keeps IsOwned Left (record cfg { qos = atoi t }) (unchanged refl refl v) _
        (λ e. unchanged refl refl v)
  option-Keeps o_quiet value = unchanged refl refl v
  option-Keeps o_retain value = pub_only-Keeps IsOwned Left cfg v role _ (unchanged refl refl v)
  option-Keeps o_stdin_file value =
      pub_only-Keeps IsOwned Left cfg v role _
        (no_message-Keeps IsOwned Left cfg v _ λ e. unchanged refl refl v)
  option-Keeps o_srv value = unchanged refl refl v
  option-Keeps o_topic value = with_value-Keeps IsOwned Left cfg v value _ (topic-Keeps role)
  option-Keeps o_pub_topic value =
      with_value-Keeps IsOwned Left cfg v value _
        λ s. checked-Keeps IsOwned Left cfg v (tc.pub_invalid s) _ (stores s refl λ w. omega arith)
  option-Keeps o_filter_out value = sub_only-Keeps IsOwned Left cfg v role _ (
      with_value-Keeps IsOwned Left cfg v value _ λ s.
        checked-Keeps IsOwned Left cfg v (tc.sub_invalid s) _
          (stores s refl λ w. omega (arith, total_of-append w cfg.filter_outs (heap cfg.next s))))
  option-Keeps o_will_qos value = with_value-Keeps IsOwned Left cfg v value _ λ t.
      in_range-Keeps IsOwned Left (record cfg { will_qos = atoi t }) (unchanged refl refl v) _
        (λ e. unchanged refl refl v)
  option-Keeps o_will_retain value = unchanged refl refl v
  option-Keeps o_will_topic value =
      with_value-Keeps IsOwned Left cfg v value _
        λ s. checked-Keeps IsOwned Left cfg v (tc.pub_invalid s) _ (stores s refl λ w. omega arith)
  option-Keeps o_disable_clean_session value =
      sub_only-Keeps IsOwned Left cfg v role _ (unchanged refl refl v)
  option-Keeps o_no_eol value = sub_only-Keeps IsOwned Left cfg v role _ (unchanged refl refl v)
  option-Keeps o_no_retain value = sub_only-Keeps IsOwned Left cfg v role _ (unchanged refl refl v)
  option-Keeps o_verbose value = sub_only-Keeps IsOwned Left cfg v role _ (unchanged refl refl v)
