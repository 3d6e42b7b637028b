-- ===== src/Examples/Client.antt =====
-- Inputs for src/mqtt/client_shared.cc.
use ktkkl.Base.{ℕ, none, arith, ◌≡◌, refl, some, codes, true, List, [], ◌∷◌, ◌++◌, Bytes}
use ktkkl.Base.Int.{pos}
use ktkkl.Libc.{same, atoi}
use ktkkl.Client.Config.{init_config, Build, client_pub, client_sub}
use ktkkl.Client.Options.{line_step, line_proc}
use ktkkl.Client.Options.Table.{table, find_option}
use ktkkl.Client.Options.Apply.{TopicChecks, apply_option, add_topic}
use ktkkl.Client.Options.Valid.{IsValid, init_config-IsValid}
use ktkkl.Client.Options.Invariant
use ktkkl.Client.Options.Append
use ktkkl.Client.Load.{
  Machine, guest_uid, client_config_load, default_file, strip_end, word_of, strtok, load_line,
  load_lines, load_file, read_options, conflict, set_host, set_username, set_password, fill_topics,
  subscribe_to, own_topic, complete,
}
use ktkkl.Client.Load.Invariant.{read_options-IsValid}
use ktkkl.Client.Load.Guest
use ktkkl.Client.Load.Login
use ktkkl.Auth.Uid.{get_uid}
use ktkkl.Auth.Status.{online_message}
use ktkkl.Auth.Connect.Admission.{Admitted, Decides}
use ktkkl.Client.Load.Cleanup
use ktkkl.Client.Load.Cleanup.{FreesLiteral}
use ktkkl.Libc.{show}
use ktkkl.Auth.Services.{State}
use ktkkl.Auth.Connect.{connect_check, success}
use ktkkl.Examples.Auth.{calm, start}
use ktkkl.Client.Proxy
use ktkkl.Client.Proxy.Url.{with_password, print_url, meant}
use ktkkl.Client.Proxy.Parse
use ktkkl.Client.Proxy.Parse.{Between}
use ktkkl.Client.Proxy.{urldecode, whole_url, parse_socks_url}
use ktkkl.Client.Proxy.Decode
use ktkkl.Client.Proxy.Escape

urldecode-decode_example : urldecode (codes "a%3ab%2") ≡ Decode.decode (codes "a%3ab%2")
urldecode-decode_example = Decode.urldecode-decode (codes "a%3ab%2")

urldecode-escape_example : urldecode (Escape.escape (codes "u:x@h%")) ≡ some (codes "u:x:h%")
urldecode-escape_example = Escape.urldecode-escape (codes "u:x@h%")

abbrev pub full_build : Build
full_build = record { tls = true; tls_psk = true; socks = true; srv = true }

abbrev pub checks : TopicChecks
checks = record { pub_invalid = λ t. same t (codes "#"); sub_invalid = λ t. same t (codes "##") }

abbrev pub words : List Bytes
words = codes "-p" ∷ codes "8883" ∷ codes "-q" ∷ codes "1" ∷ codes "-d" ∷ []

abbrev more_words : List Bytes
more_words = codes "-t" ∷ codes "a" ∷ codes "-m" ∷ codes "hi" ∷ []

parse_socks_url-Between_example : Between 1 65535 (pos 99)
parse_socks_url-Between_example =
    Parse.parse_socks_url-Between (codes "socks5h://me:pw@gate:99") _ whole_url

line_proc-IsValid_example :
    IsValid (line_proc full_build client_pub checks init_config (words ++ more_words)).1
unfolding line_proc line_step table find_option apply_option add_topic atoi init_config
line_proc-IsValid_example =
    Invariant.line_proc-IsValid full_build client_pub checks init_config (words ++ more_words)
      init_config-IsValid refl

line_proc-append_example :
    line_proc full_build client_pub checks init_config (words ++ more_words)
    ≡ line_proc full_build client_pub checks
        (line_proc full_build client_pub checks init_config words).1
        more_words
unfolding line_proc line_step table find_option apply_option atoi
line_proc-append_example =
    Append.line_proc-append full_build client_pub checks init_config words more_words
      init_config-IsValid refl

-- A home directory with a file of two lines.
abbrev pub machine : Machine
machine = record {
  xdg_config_home = none;
  home = some (codes "/root");
  open_lines =
      λ loc. some ((codes "# comment" ++ 10 ∷ []) ∷ (codes "-h gate" ++ 13 ∷ 10 ∷ []) ∷ []);
  lrand48 = 20170009;
}

guest_login_example :
    (s' : State ℕ) × (connect_check calm 1
        (some (show (guest_uid machine)))
        (some (codes "codein.tv"))
        (some (codes "phone"))
        5
        (start 0)
      ≡ some (success, s'))
unfolding client_config_load complete read_options load_file default_file load_lines load_line
    strtok word_of strip_end init_config line_proc line_step table find_option apply_option conflict
    set_host set_username set_password fill_topics subscribe_to own_topic atoi show
guest_login_example =
    Guest.guest_login calm 1 1 5 (codes "phone") machine full_build client_sub checks words _ refl
      refl refl (omega arith) (λ buf w. (0, omega arith, λ e. cc)) (omega arith) (start 0)

last_login_example :
    Decides calm
      (Admitted calm (codes "2017") (codes "secret") 0)
      (online_message calm (get_uid (codes "2017")) (codes "secret") (codes "phone") 5)
      (start 0)
      (connect_check calm 1 (some (codes "2017")) (some (codes "secret")) (some (codes "phone")) 5)
unfolding client_config_load complete read_options load_file default_file load_lines load_line
    strtok word_of strip_end init_config line_proc line_step table find_option apply_option conflict
    set_host set_username set_password fill_topics subscribe_to own_topic atoi show
last_login_example =
    Login.last_login calm 1 1 5 (codes "phone") machine full_build client_sub checks words
      (codes "2017") (codes "secret") _ refl refl (λ buf w. (0, omega arith, λ e. cc)) (omega arith)
      (start 0)

cleanup-FreesLiteral_example : FreesLiteral (
    client_config_load
      (record machine { home = none })
      full_build
      client_sub
      checks
      (codes "-c" ∷ []))
unfolding client_config_load complete read_options load_file default_file init_config line_proc
    line_step table find_option apply_option conflict
cleanup-FreesLiteral_example =
    Cleanup.cleanup-FreesLiteral (record machine { home = none }) full_build checks
      (codes "-c" ∷ []) refl refl refl refl refl

read_options-IsValid_example : IsValid (read_options machine full_build client_sub checks words).1
unfolding read_options load_file default_file load_lines load_line strtok word_of strip_end
    init_config line_proc line_step table find_option apply_option atoi
read_options-IsValid_example = read_options-IsValid full_build client_sub checks machine words refl

parse_socks_url-print_url_example :
    parse_socks_url (print_url (with_password (codes "m:e") (codes "p%w")) (codes "gate") (some 99))
    ≡ some (meant (with_password (codes "m:e") (codes "p%w")) (codes "gate") (some 99))
parse_socks_url-print_url_example =
    Proxy.RoundTrip.parse_socks_url-print_url (with_password (codes "m:e") (codes "p%w"))
      (codes "gate") (some 99) (omega arith) (omega arith) (omega arith)
