-- ===== src/Examples/Program.antt =====
-- Inputs for the main of src/mqtt/mqttest.cc and what it calls: a library that answers every call, and one
-- that refuses the user name.
use ktkkl.Base.{
  inr, Bytes, List, Option, [], arith, codes, length, none, refl, some, true, ℕ, ◌∷◌, ◌≤◌, ◌≡◌,
  ◌++◌, All, map,
}
use ktkkl.Base.Int.{ℤ, pos}
use ktkkl.Libc.{show, atoi}
use ktkkl.Client.Config.{Config, freed, init_config, heap, client_sub}
use ktkkl.Client.Ident.{client_id_generate, prefixed, described, cut}
use ktkkl.Client.Ident.Limit
use ktkkl.Client.Ident.Limit.{id_text}
use ktkkl.Client.Library.{Call, Ran, username_pw_set}
use ktkkl.Client.Setup.{client_opts_set, client_connect}
use ktkkl.Client.Setup.Outcome
use ktkkl.Client.Setup.Outcome.{wanted}
use ktkkl.Client.Load.Lines
use ktkkl.Client.Load.Lines.{Entry, flag, setting, print_entry, all_arguments, IsInner, IsEntry}
use ktkkl.Client.Load.{
  Machine, client_config_load, complete, read_options, load_file, default_file, load_lines,
  load_line, strtok, word_of, strip_end, conflict, set_host, set_username, set_password,
  fill_topics, subscribe_to, own_topic,
}
use ktkkl.Client.Options.{line_step, line_proc}
use ktkkl.Client.Options.Table.{table, find_option}
use ktkkl.Client.Options.Apply.{apply_option, add_topic}
use ktkkl.Client.Owned
use ktkkl.Client.Owned.{IsOwned, total, is_block}
use ktkkl.Client.Load.Ready
use ktkkl.Tester.Main.{
  Surroundings, run_loaded, run_named, run_created, run_connected, exit_code, main,
}
use ktkkl.Tester.Main.Order
use ktkkl.Tester.Main.Protocol.{Ends, outside}
use ktkkl.Examples.Client.{full_build, checks, machine, words}

-- The result of a call that returns.
abbrev outcome : Option (Ran ℤ) → Ran ℤ
outcome none = ([], pos 0)
outcome (some r) = r

abbrev loaded : Option (ℕ × Config) → Config
loaded none = init_config
loaded (some r) = r.1

abbrev refuses_name : Call → ℤ
refuses_name (username_pw_set u p) = pos 3
refuses_name _ = pos 0

abbrev options : Config
options = record init_config { username = some (heap 0 (codes "me")) }

client_id_generate_limit_example :
    length (
      id_text
        (client_id_generate true 4711
          (codes "a.rather.long.host.name")
          (codes "code")
          init_config).1.1)
    ≤ 23
unfolding init_config
client_id_generate_limit_example =
    Limit.client_id_generate_limit init_config (codes "code") refl 4711
      (codes "a.rather.long.host.name") (omega arith) (omega arith)

client_opts_set-Outcome_example :
    Outcome.Outcome refuses_name
      (wanted full_build options)
      (client_opts_set refuses_name full_build options)
client_opts_set-Outcome_example = Outcome.client_opts_set-Outcome refuses_name full_build options

-- Everything is granted, and the loop ends without a connection.
abbrev granting : Surroundings
granting = record {
  memory = true;
  pid = 4711;
  hostname = codes "gate";
  no_conn = pos 4;
  new_succeeds = true;
  answer = λ c. pos 0;
}

main-Ends_example : Ends granting outside (outcome (main granting full_build machine checks words))
unfolding main run_loaded run_named run_created run_connected exit_code client_opts_set
    client_connect client_id_generate prefixed described cut client_config_load complete
    read_options load_file default_file load_lines load_line strtok word_of strip_end init_config
    line_proc line_step table find_option apply_option conflict set_host set_username set_password
    fill_topics subscribe_to own_topic atoi show
main-Ends_example = Order.main-Ends granting full_build machine checks words _ refl

client_config_load-IsReady_example :
    Ready.IsReady full_build
      (loaded (client_config_load machine full_build client_sub checks words))
unfolding client_config_load complete read_options load_file default_file load_lines load_line
    strtok word_of strip_end init_config line_proc line_step table find_option apply_option conflict
    set_host set_username set_password fill_topics subscribe_to own_topic atoi show
client_config_load-IsReady_example =
    Ready.client_config_load-IsReady full_build machine checks words _ refl

abbrev topic_words : List Bytes
topic_words = codes "-t" ∷ codes "a" ∷ []

abbrev entries : List Entry
entries = flag (codes "-d") ∷ setting (codes "-p") (codes "99") ∷ []

IsInner-above : (c : ℕ) → 33 ≤ c → IsInner c
IsInner-above c h = ((λ e. omega arith), (λ e. omega arith), λ e. omega arith)

entries-IsEntry : All IsEntry entries
entries-IsEntry =
    let a = λ (c : ℕ) (h : 33 ≤ c). IsInner-above c h in
    (
      ((a 45 (omega arith), (a 100 (omega arith), tt)), refl),
      (
        (
          (a 45 (omega arith), (a 112 (omega arith), tt)),
          (a 57 (omega arith), (a 57 (omega arith), tt)),
          refl,
        ),
        tt,
      ),
    )

abbrev small_file : Machine
small_file = record machine { open_lines = λ loc. some (map print_entry entries) }

file_as_arguments_example :
    read_options small_file full_build client_sub checks topic_words
    ≡ line_proc full_build client_sub checks init_config (all_arguments entries ++ topic_words)
unfolding default_file load_lines load_line strtok word_of strip_end init_config line_proc line_step
    table find_option apply_option atoi
file_as_arguments_example =
    Lines.file_as_arguments full_build client_sub checks small_file _ entries topic_words refl refl
      entries-IsEntry refl

client_config_load-IsOwned_example : IsOwned (
    loaded (
      client_config_load machine full_build client_sub checks
        (codes "-b" ∷ codes "other" ∷ codes "-c" ∷ [])))
unfolding client_config_load complete read_options load_file default_file load_lines load_line
    strtok word_of strip_end init_config line_proc line_step table find_option apply_option conflict
    set_host set_username set_password fill_topics subscribe_to own_topic atoi show
client_config_load-IsOwned_example =
    Owned.Loaded.client_config_load-IsOwned machine full_build client_sub checks
      (codes "-b" ∷ codes "other" ∷ codes "-c" ∷ []) 1 _ refl (inr (refl, refl))

topic_freed_twice_example :
    2
    ≤ total
        (is_block 1)
        (freed (loaded (client_config_load machine full_build client_sub checks topic_words)))
unfolding client_config_load complete read_options load_file default_file load_lines load_line
    strtok word_of strip_end init_config line_proc line_step table find_option apply_option
    add_topic conflict set_host set_username set_password fill_topics subscribe_to own_topic atoi
    show
topic_freed_twice_example =
    Owned.Twice.topic_freed_twice 1 (codes "a") [] machine full_build checks topic_words _ refl refl
      refl
