-- ===== src/Tester/Usage.antt =====
-- print_usage of src/mqtt/mqttest.cc, as the lines that it prints.
pub mod Documented
pub mod Known
pub mod Letters
use ktkkl.Base.{ℕ, Bool, ◌&&◌, not, List, [], ◌∷◌, ◌++◌, Bytes, codes, if◌then◌else◌}
use ktkkl.Libc.{show}
use ktkkl.Client.Config.{Build}

-- The version of libmosquitto.
pub record Version : Type 0 where
  pub major : ℕ
  pub minor : ℕ
  pub revision : ℕ

-- #ifdef
abbrev lines_if : Bool → List Bytes → List Bytes
lines_if b ls = if b then ls else []

abbrev version_line : Version → Bytes
version_line v =
    codes "sub_test version 1.0 running on libmosquitto "
    ++ (show v.major
        ++ (codes "." ++ (show v.minor ++ (codes "." ++ (show v.revision ++ codes ".")))))

-- What the program is and how it is called.
unfoldable pub synopsis : Version → Build → List Bytes
synopsis v b =
    (codes
        "sub_test is a simple mqtt client that will subscribe to a single topic and print all messages it receives."
      ∷ [])
    ++ ((version_line v ∷ [])
        ++ ((codes ""
              ∷ codes
                  "Usage: sub_test [-c] [-h host] [-k keepalive] [-p port] [-q qos] [-R] -t topic ..."
              ∷ codes "                     [-C msg_count] [-T filter_out]"
              ∷ [])
            ++ (lines_if (b.srv) (codes "                     [-A bind_address] [-S]" ∷ [])
                ++ (lines_if (not b.srv) (codes "                     [-A bind_address]" ∷ [])
                    ++ ((codes "                     [-i id] [-I id_prefix]"
                          ∷ codes "                     [-d] [-N] [--quiet] [-v]"
                          ∷ codes "                     [-u username [-P password]]"
                          ∷ codes
                              "                     [--will-topic [--will-payload payload] [--will-qos qos] [--will-retain]]"
                          ∷ [])
                        ++ (lines_if (b.tls) (
                              codes
                                "                     [{--cafile file | --capath dir} [--cert file] [--key file]"
                              ∷ codes "                      [--ciphers ciphers] [--insecure]]"
                              ∷ [])
                            ++ (lines_if (b.tls && b.tls_psk) (
                                  codes
                                    "                     [--psk hex-key --psk-identity identity [--ciphers ciphers]]"
                                  ∷ [])
                                ++ (lines_if (b.socks)
                                      (codes "                     [--proxy socks-url]" ∷ [])
                                    ++ ((codes "       sub_test --help" ∷ codes "" ∷ []))))))))))

-- The options that take a letter, up to the lookup of a server.
unfoldable pub short_options : Build → List Bytes
short_options b =
    (codes " -A : bind the outgoing socket to this host/ip address. Use to control which interface"
      ∷ codes "      the client communicates over."
      ∷ codes
          " -c : disable 'clean session' (store subscription and pending messages when client disconnects)."
      ∷ codes " -C : disconnect and exit after receiving the 'msg_count' messages."
      ∷ codes " -d : enable debug messages."
      ∷ codes " -h : mqtt host to connect to. Defaults to localhost."
      ∷ codes " -i : id to use for this client. Defaults to sub_test_ appended with the process id."
      ∷ codes
          " -I : define the client id as id_prefix appended with the process id. Useful for when the"
      ∷ codes "      broker is using the clientid_prefixes option."
      ∷ codes " -k : keep alive in seconds for this client. Defaults to 60."
      ∷ codes " -N : do not add an end of line character when printing the payload."
      ∷ codes " -p : network port to connect to. Defaults to 1883."
      ∷ codes " -P : provide a password (requires MQTT 3.1 broker)"
      ∷ codes " -q : quality of service level to use for the subscription. Defaults to 0."
      ∷ codes " -R : do not print stale messages (those with retain set)."
      ∷ [])
    ++ (lines_if (b.srv)
        (codes " -S : use SRV lookups to determine which host to connect to." ∷ []))

-- The options from -t on that are there in every build.
unfoldable pub more_options : Build → List Bytes
more_options b =
    (codes " -t : mqtt topic to subscribe to. May be repeated multiple times."
      ∷ codes " -T : topic string to filter out of results. May be repeated."
      ∷ codes " -u : provide a username (requires MQTT 3.1 broker)"
      ∷ codes " -v : print published messages verbosely."
      ∷ codes " -V : specify the version of the MQTT protocol to use when connecting."
      ∷ codes "      Can be mqttv31 or mqttv311. Defaults to mqttv31."
      ∷ codes " --help : display this message."
      ∷ codes " --quiet : don't print error messages."
      ∷ codes
          " --will-payload : payload for the client Will, which is sent by the broker in case of"
      ∷ codes
          "                  unexpected disconnection. If not given and will-topic is set, a zero"
      ∷ codes "                  length message will be sent."
      ∷ codes " --will-qos : QoS level for the client Will."
      ∷ codes " --will-retain : if given, make the client Will retained."
      ∷ codes " --will-topic : the topic on which to publish the client Will."
      ∷ [])

-- The options of TLS and of a proxy, and the last line.
unfoldable pub long_options : Build → List Bytes
long_options b =
    lines_if (b.tls) (
      codes " --cafile : path to a file containing trusted CA certificates to enable encrypted"
      ∷ codes "            certificate based communication."
      ∷ codes
          " --capath : path to a directory containing trusted CA certificates to enable encrypted"
      ∷ codes "            communication."
      ∷ codes " --cert : client certificate for authentication, if required by server."
      ∷ codes " --key : client private key for authentication, if required by server."
      ∷ codes " --ciphers : openssl compatible list of TLS ciphers to support."
      ∷ codes " --tls-version : TLS protocol version, can be one of tlsv1.2 tlsv1.1 or tlsv1."
      ∷ codes "                 Defaults to tlsv1.2 if available."
      ∷ codes " --insecure : do not check that the server certificate hostname matches the remote"
      ∷ codes "              hostname. Using this option means that you cannot be sure that the"
      ∷ codes "              remote host is the server you wish to connect to and so is insecure."
      ∷ codes "              Do not use this option in a production environment."
      ∷ [])
    ++ (lines_if (b.tls && b.tls_psk) (
          codes " --psk : pre-shared-key in hexadecimal (no leading 0x) to enable TLS-PSK mode."
          ∷ codes " --psk-identity : client identity string for TLS-PSK mode."
          ∷ [])
        ++ (lines_if (b.socks) (
              codes " --proxy : SOCKS5 proxy URL of the form:"
              ∷ codes "           socks5h://[username[:password]@]hostname[:port]"
              ∷ codes "           Only \"none\" and \"username\" authentication is supported."
              ∷ [])
            ++ ((codes ""
                ∷ codes "See http://mosquitto.org/ for more information."
                ∷ codes ""
                ∷ []))))

unfoldable pub usage : Version → Build → List Bytes
unfolding synopsis short_options more_options long_options
usage v b = synopsis v b ++ (short_options b ++ (more_options b ++ long_options b))
