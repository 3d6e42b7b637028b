-- ===== src/Client/Options/Branches.antt =====
-- The branches of client_config_line_proc in src/mqtt/client_shared.cc, one by one.
use ktkkl.Base.{Option, none, some, ◌≡◌, refl, inl, inr, Option-cases, Bool-cases, codes, Bytes}
use mathlib.Core.Path.{subst}
use ktkkl.Libc.{same, atoi}
use ktkkl.Client.Config.{Config, Role, client_pub, client_sub, mode_none}
use ktkkl.Client.Proxy.{Proxy, parse_socks_url}
use ktkkl.Client.Proxy.Parse.{parse_socks_url-Between}
use ktkkl.Client.Options.Table.{
  Opt, o_port, o_bind, o_cafile, o_capath, o_cert, o_ciphers, o_count, o_debug, o_file, o_help,
  o_host, o_insecure, o_id, o_id_prefix, o_keepalive, o_key, o_stdin_line, o_message, o_inflight,
  o_null, o_version, o_proxy, o_psk, o_psk_identity, o_qos, o_quiet, o_retain, o_stdin_file, o_srv,
  o_topic, o_pub_topic, o_filter_out, o_tls_version, o_username, o_password, o_will_payload,
  o_will_qos, o_will_retain, o_will_topic, o_disable_clean_session, o_no_eol, o_no_retain,
  o_verbose,
}
use ktkkl.Client.Options.Apply.{
  TopicChecks, Step, next_two, stop, store_proxy, set_version, add_topic, apply_option,
}
use ktkkl.Client.Options.Valid.{range_of, below_max, positive, IsValid, Fails, Sourced}
use ktkkl.Client.Options.Keep.{
  with_value-Keeps, sub_only-Keeps, pub_only-Keeps, unless_set-Keeps, in_range-Keeps, checked-Keeps,
  no_message-Keeps, two-ne-zero, one-ne-zero, Keeps,
}

module _ (role : Role) (tc : TopicChecks) (cfg : Config) (v : IsValid cfg) where
  topic-Keeps : (r : Role) (s : Bytes) → Keeps IsValid Fails (add_topic r tc cfg s)
  unfolding add_topic
  topic-Keeps client_pub s = checked-Keeps IsValid Fails cfg one-ne-zero (tc.pub_invalid s) _ v
  topic-Keeps client_sub s = checked-Keeps IsValid Fails cfg one-ne-zero (tc.sub_invalid s) _ v

  version-Keeps : (s : Bytes) → Keeps IsValid Fails (set_version cfg s)
  unfolding set_version
  version-Keeps s = elim (Bool-cases (same s (codes "mqttv31"))) [
    | inl t ↦ rw t v
    | inr f ↦ rw f (elim (Bool-cases (same s (codes "mqttv311"))) [
      | inl t ↦ rw t v
      | inr g ↦ rw g one-ne-zero
    ])
  ]

  abbrev proxy_step : Option Proxy → Step
  proxy_step o = elim o [ none ↦ stop 1 cfg | some p ↦ next_two (store_proxy cfg p) ]

  proxy-Keeps : (s : Bytes) → Keeps IsValid Fails (proxy_step (parse_socks_url s))
  unfolding store_proxy
  proxy-Keeps t = elim (Option-cases (parse_socks_url t)) [
    | inl e ↦ rw e one-ne-zero
    | inr (u, e) ↦ rw e (
        let (p, q, w, k, c, x, m, l, s, y) = v in
        (p, q, w, k, c, x, m, l, s, inr (parse_socks_url-Between t u e)))
  ]

  no_source : cfg.pub_mode ≡ mode_none → (cfg.message ≡ none) × (cfg.file_input ≡ none)
  no_source e =
      let (p, q, w, k, c, x, m, l, s, y) = v in
      subst (λ k. Sourced k cfg.message cfg.file_input) e s

  pub option-Keeps :
      (o : Opt) (value : Option Bytes) → Keeps IsValid Fails (apply_option role tc cfg o value)
  unfolding apply_option
  option-Keeps o_port value = with_value-Keeps IsValid Fails cfg one-ne-zero value _ λ t.
      in_range-Keeps IsValid Fails (record cfg { port = atoi t }) one-ne-zero _
        λ e.
          let (p, q, w, k, c, x, m, l, s, y) = v in
          (range_of 1 65535 (atoi t) e, q, w, k, c, x, m, l, s, y)
  option-Keeps o_bind value = with_value-Keeps IsValid Fails cfg one-ne-zero value _ (λ s. v)
  option-Keeps o_cafile value = with_value-Keeps IsValid Fails cfg one-ne-zero value _ (λ s. v)
  option-Keeps o_capath value = with_value-Keeps IsValid Fails cfg one-ne-zero value _ (λ s. v)
  option-Keeps o_cert value = with_value-Keeps IsValid Fails cfg one-ne-zero value _ (λ s. v)
  option-Keeps o_ciphers value = with_value-Keeps IsValid Fails cfg one-ne-zero value _ (λ s. v)
  option-Keeps o_count value = sub_only-Keeps IsValid Fails cfg one-ne-zero role _ (
      with_value-Keeps IsValid Fails cfg one-ne-zero value _ λ t.
        in_range-Keeps IsValid Fails (record cfg { msg_count = atoi t }) one-ne-zero _
          λ e.
            let (p, q, w, k, c, x, m, l, s, y) = v in
            (p, q, w, k, positive (atoi t) e, x, m, l, s, y))
  option-Keeps o_debug value = v
  option-Keeps o_file value = pub_only-Keeps IsValid Fails cfg one-ne-zero role _ (
      no_message-Keeps IsValid Fails cfg one-ne-zero _ λ e.
        with_value-Keeps IsValid Fails cfg one-ne-zero value _ λ t.
          let (p, q, w, k, c, x, m, l, s, y) = v in
          (p, q, w, k, c, x, m, l, ((no_source e).0, λ f. cc), y))
  option-Keeps o_help value = two-ne-zero
  option-Keeps o_host value = with_value-Keeps IsValid Fails cfg one-ne-zero value _ (λ s. v)
  option-Keeps o_insecure value = v
  option-Keeps o_id value = unless_set-Keeps IsValid Fails cfg one-ne-zero cfg.id_prefix _ λ e.
      with_value-Keeps IsValid Fails cfg one-ne-zero value _
        λ t. let (p, q, w, k, c, x, m, l, s, y) = v in (p, q, w, k, c, inr e, m, l, s, y)
  option-Keeps o_id_prefix value = unless_set-Keeps IsValid Fails cfg one-ne-zero cfg.id _ λ e.
      with_value-Keeps IsValid Fails cfg one-ne-zero value _
        λ t. let (p, q, w, k, c, x, m, l, s, y) = v in (p, q, w, k, c, inl e, m, l, s, y)
  option-Keeps o_keepalive value = with_value-Keeps IsValid Fails cfg one-ne-zero value _ λ t.
      in_range-Keeps IsValid Fails (record cfg { keepalive = atoi t }) one-ne-zero _
        λ e.
          let (p, q, w, k, c, x, m, l, s, y) = v in
          (p, q, w, below_max (atoi t) e, c, x, m, l, s, y)
  option-Keeps o_key value = with_value-Keeps IsValid Fails cfg one-ne-zero value _ (λ s. v)
  option-Keeps o_stdin_line value = pub_only-Keeps IsValid Fails cfg one-ne-zero role _ (
      no_message-Keeps IsValid Fails cfg one-ne-zero _
        λ e. let (p, q, w, k, c, x, m, l, s, y) = v in (p, q, w, k, c, x, m, l, (no_source e), y))
  option-Keeps o_message value = pub_only-Keeps IsValid Fails cfg one-ne-zero role _ (
      no_message-Keeps IsValid Fails cfg one-ne-zero _ λ e.
        with_value-Keeps IsValid Fails cfg one-ne-zero value _ λ t.
          let (p, q, w, k, c, x, m, l, s, y) = v in
          (p, q, w, k, c, x, refl, l, ((λ f. cc), (no_source e).1), y))
  option-Keeps o_inflight value = with_value-Keeps IsValid Fails cfg one-ne-zero value _ (λ s. v)
  option-Keeps o_null value = pub_only-Keeps IsValid Fails cfg one-ne-zero role _ (
      no_message-Keeps IsValid Fails cfg one-ne-zero _
        λ e. let (p, q, w, k, c, x, m, l, s, y) = v in (p, q, w, k, c, x, m, l, (no_source e), y))
  option-Keeps o_version value =
      with_value-Keeps IsValid Fails cfg one-ne-zero value _ λ t. version-Keeps t
  option-Keeps o_proxy value =
      with_value-Keeps IsValid Fails cfg one-ne-zero value _ λ t. proxy-Keeps t
  option-Keeps o_psk value = with_value-Keeps IsValid Fails cfg one-ne-zero value _ (λ s. v)
  option-Keeps o_psk_identity value =
      with_value-Keeps IsValid Fails cfg one-ne-zero value _ (λ s. v)
  option-Keeps o_qos value = with_value-Keeps IsValid Fails cfg one-ne-zero value _ λ t.
      in_range-Keeps IsValid Fails (record cfg { qos = atoi t }) one-ne-zero _
        λ e.
          let (p, q, w, k, c, x, m, l, s, y) = v in
          (p, range_of 0 2 (atoi t) e, w, k, c, x, m, l, s, y)
  option-Keeps o_quiet value = v
  option-Keeps o_retain value = pub_only-Keeps IsValid Fails cfg one-ne-zero role _ v
  option-Keeps o_stdin_file value = pub_only-Keeps IsValid Fails cfg one-ne-zero role _ (
      no_message-Keeps IsValid Fails cfg one-ne-zero _
        λ e. let (p, q, w, k, c, x, m, l, s, y) = v in (p, q, w, k, c, x, m, l, (no_source e), y))
  option-Keeps o_srv value = v
  option-Keeps o_topic value =
      with_value-Keeps IsValid Fails cfg one-ne-zero value _ (topic-Keeps role)
  option-Keeps o_pub_topic value =
      with_value-Keeps IsValid Fails cfg one-ne-zero value _
        λ t. checked-Keeps IsValid Fails cfg one-ne-zero (tc.pub_invalid t) _ v
  option-Keeps o_filter_out value = sub_only-Keeps IsValid Fails cfg one-ne-zero role _ (
      with_value-Keeps IsValid Fails cfg one-ne-zero value _
        λ t. checked-Keeps IsValid Fails cfg one-ne-zero (tc.sub_invalid t) _ v)
  option-Keeps o_tls_version value = with_value-Keeps IsValid Fails cfg one-ne-zero value _ (λ s. v)
  option-Keeps o_username value = with_value-Keeps IsValid Fails cfg one-ne-zero value _ (λ s. v)
  option-Keeps o_password value = with_value-Keeps IsValid Fails cfg one-ne-zero value _ (λ s. v)
  option-Keeps o_will_payload value =
      with_value-Keeps IsValid Fails cfg one-ne-zero value _
        λ t. let (p, q, w, k, c, x, m, l, s, y) = v in (p, q, w, k, c, x, m, refl, s, y)
  option-Keeps o_will_qos value = with_value-Keeps IsValid Fails cfg one-ne-zero value _ λ t.
      in_range-Keeps IsValid Fails (record cfg { will_qos = atoi t }) one-ne-zero _
        λ e.
          let (p, q, w, k, c, x, m, l, s, y) = v in
          (p, q, range_of 0 2 (atoi t) e, k, c, x, m, l, s, y)
  option-Keeps o_will_retain value = v
  option-Keeps o_will_topic value =
      with_value-Keeps IsValid Fails cfg one-ne-zero value _
        λ t. checked-Keeps IsValid Fails cfg one-ne-zero (tc.pub_invalid t) _ v
  option-Keeps o_disable_clean_session value = sub_only-Keeps IsValid Fails cfg one-ne-zero role _ v
  option-Keeps o_no_eol value = sub_only-Keeps IsValid Fails cfg one-ne-zero role _ v
  option-Keeps o_no_retain value = sub_only-Keeps IsValid Fails cfg one-ne-zero role _ v
  option-Keeps o_verbose value = sub_only-Keeps IsValid Fails cfg one-ne-zero role _ v
