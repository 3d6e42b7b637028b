-- ===== src/Lib.antt =====
-- Verification of the MQTT programs of the repository: the authentication plugin of the broker
-- (src/mqtt/auth_plugin.cc), the command line test client (src/mqtt/mqttest.cc) and the options that
-- the client shares with its siblings (src/mqtt/client_shared.cc and client_shared.h).
--
-- How the parts interact. The broker loads the plugin: mosquitto_auth_plugin_init opens a pool of
-- connections to PostgreSQL and a Kafka producer with a thread, and every new client goes through
-- mosquitto_auth_connect_check, which asks the data base for the session and tells Kafka that the
-- client is online. The test client reads its options into a mosq_config, connects, subscribes, sends
-- one message and dumps what it receives; both directions share a header of ten bytes.
--
-- The files:
--   Base: names of the libraries, tests on numbers, lists, byte strings, integers, bitwise or.
--   Libc: strcmp, strncmp, atol, atoi, printf of numbers, snprintf; Libc.Decimal reads back a print.
--   Auth.Uid: get_uid; its children prove what it accepts.
--   Auth.Services: the pool, librdkafka, the clock and the sockets as a record over a world, with a log
--     of the calls; the monad of the plugin's functions, where `none` is a call that has not returned.
--   Auth.Kafka: kafka_send. Auth.Session: check_token. Auth.Status: on_client_online and
--     update_client_status. Auth.Connect: mosquitto_auth_connect_check and the callbacks that only
--     decide; Auth.Connect.Series is about one login after another. Auth.Lifecycle:
--     kafka_run, kafka_init, mosquitto_auth_plugin_init and _cleanup.
--   Client.Config: struct mosq_config, init_config, client_config_cleanup. Client.Proxy:
--     mosquitto__urldecode and mosquitto__parse_socks_url; Client.Proxy.Url prints urls, and
--     Client.Proxy.Phases, Client.Proxy.Hops and Client.Proxy.RoundTrip read them back.
--     Client.Options: client_config_line_proc, its words in Client.Options.Table, the bodies of its
--     branches in Client.Options.Apply; what every configuration satisfies is in Client.Options.Valid
--     and is kept by the branches of Client.Options.Branches; Client.Options.Keep carries such a
--     property from the branches to whole lines; Client.Options.Invariant and Client.Options.Append are
--     about whole lines.
--   Client.Load: client_config_load; Client.Load.Invariant and Client.Load.Cleanup are about what it
--     returns, Client.Load.Guest and Client.Load.Login about what the plugin says to it.
--   Client.Library: the calls of libmosquitto. Client.Ident: client_id_generate. Client.Setup:
--     client_opts_set and client_connect. Client.Load.Ready: what a program may rely on after loading;
--     Client.Load.Lines is about the default file.
--   Client.Owned: which blocks client_config_cleanup frees, and how often; Client.Options.Words is about
--     one word of the options.
--   Tester.Wire: the header. Tester.Dump: dump_im_msg, dump_mqtt, send_mqtt_msg. Tester.Callbacks: the
--     callbacks of libmosquitto and the messages that are sent. Tester.Loop: the callbacks called for
--     one event after another. Tester.Main: main; Tester.Main.Protocol is the life cycle of the library,
--     Tester.Main.Order is about the runs of main.
--   Tester.Usage: print_usage; Tester.Usage.Documented reads the words that it documents, and
--     Tester.Usage.Known and Tester.Usage.Letters compare them with the parser.
--   Examples: one concrete input for each theorem that has hypotheses.
--
-- Representation. A C string is the list of its bytes before the NUL, bytes from 0 to 255; a null
-- pointer is `none`. A `long` is its 64-bit pattern where the code computes with it, and sums wrap
-- around, as compiled code does (the language leaves a signed overflow undefined); elsewhere it is an
-- integer. The handles of the libraries are numbers. Allocation is taken to succeed,
-- but for the id that client_id_generate makes; a copy made by strdup is a block with a
-- number of its own and the text.
-- Output on stderr is left out, but for the dump of the test client, which is a list of lines.
--
-- Fuel. kafka_send takes one unit for each call of rd_kafka_produce: its loop has no bound of its own,
-- and the theorems about it say how much fuel is enough. The plugin's thread takes one unit for each
-- round of its loop. The loop of mosquitto__urldecode takes one more than the text has bytes, and its
-- equivalence with a decoder by recursion shows that this is enough; the same goes for the loop that
-- prints a number.
--
-- Parameters. libpq, the pool, librdkafka, the generated protobuf classes and libmosquitto are not in
-- the repository: they are arguments, and what a theorem needs of them is a hypothesis. What libmosquitto
-- answers to a call of main is a function of the call, since no run makes one call twice.
--
-- Not modelled: the messages of the client on its error output, and
-- the programs in other languages.
pub mod Base
pub mod Libc
pub mod Auth
pub mod Client
pub mod Tester
mod Examples
