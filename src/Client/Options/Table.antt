-- ===== src/Client/Options/Table.antt =====
-- The words that client_config_line_proc compares an argument with, and the branch of each.
use ktkkl.Base.{Bool, List, [], ◌∷◌, ◌++◌, Option, none, some, Bytes, codes, if◌then◌else◌}
use ktkkl.Libc.{same}
use ktkkl.Client.Config.{Build}

-- One constructor for each branch.
pub data Opt : Type 0 where
  o_port o_bind o_cafile o_capath o_cert o_ciphers o_count o_debug o_file o_help o_host : Opt
  o_insecure o_id o_id_prefix o_keepalive o_key o_stdin_line o_message o_inflight o_null : Opt
  o_version o_proxy o_psk o_psk_identity o_qos o_quiet o_retain o_stdin_file o_srv o_topic : Opt
  o_pub_topic o_filter_out o_tls_version o_username o_password o_will_payload o_will_qos : Opt
  o_will_retain o_will_topic o_disable_clean_session o_no_eol o_no_retain o_verbose : Opt

abbrev Entry : Type 0
Entry = Bytes × Opt

-- #ifdef
abbrev defined : Bool → List Entry → List Entry
defined b es = if b then es else []

unfoldable pub table : Build → List Entry
table b =
    ((codes "-p", o_port) ∷ (codes "--port", o_port) ∷ (codes "-A", o_bind) ∷ [])
    ++ (defined b.tls (
          (codes "--cafile", o_cafile)
          ∷ (codes "--capath", o_capath)
          ∷ (codes "--cert", o_cert)
          ∷ (codes "--ciphers", o_ciphers)
          ∷ [])
        ++ (((codes "-C", o_count)
              ∷ (codes "-d", o_debug)
              ∷ (codes "--debug", o_debug)
              ∷ (codes "-f", o_file)
              ∷ (codes "--file", o_file)
              ∷ (codes "--help", o_help)
              ∷ (codes "-h", o_host)
              ∷ (codes "--host", o_host)
              ∷ [])
            ++ (defined b.tls ((codes "--insecure", o_insecure) ∷ [])
                ++ (((codes "-i", o_id)
                      ∷ (codes "--id", o_id)
                      ∷ (codes "-I", o_id_prefix)
                      ∷ (codes "--id-prefix", o_id_prefix)
                      ∷ (codes "-k", o_keepalive)
                      ∷ (codes "--keepalive", o_keepalive)
                      ∷ [])
                    ++ (defined b.tls ((codes "--key", o_key) ∷ [])
                        ++ (((codes "-l", o_stdin_line)
                              ∷ (codes "--stdin-line", o_stdin_line)
                              ∷ (codes "-m", o_message)
                              ∷ (codes "--message", o_message)
                              ∷ (codes "-M", o_inflight)
                              ∷ (codes "-n", o_null)
                              ∷ (codes "--null-message", o_null)
                              ∷ (codes "-V", o_version)
                              ∷ (codes "--protocol-version", o_version)
                              ∷ [])
                            ++ (defined b.socks ((codes "--proxy", o_proxy) ∷ [])
                                ++ (defined b.tls_psk (
                                      (codes "--psk", o_psk)
                                      ∷ (codes "--psk-identity", o_psk_identity)
                                      ∷ [])
                                    ++ (((codes "-q", o_qos)
                                          ∷ (codes "--qos", o_qos)
                                          ∷ (codes "--quiet", o_quiet)
                                          ∷ (codes "-r", o_retain)
                                          ∷ (codes "--retain", o_retain)
                                          ∷ (codes "-s", o_stdin_file)
                                          ∷ (codes "--stdin-file", o_stdin_file)
                                          ∷ [])
                                        ++ (defined b.srv ((codes "-S", o_srv) ∷ [])
                                            ++ (((codes "-t", o_topic)
                                                  ∷ (codes "--topic", o_topic)
                                                  ∷ (codes "-b", o_pub_topic)
                                                  ∷ (codes "--pub-topic", o_pub_topic)
                                                  ∷ (codes "-T", o_filter_out)
                                                  ∷ (codes "--filter-out", o_filter_out)
                                                  ∷ [])
                                                ++ (defined b.tls
                                                      ((codes "--tls-version", o_tls_version) ∷ [])
                                                    ++ ((codes "-u", o_username)
                                                        ∷ (codes "--username", o_username)
                                                        ∷ (codes "-P", o_password)
                                                        ∷ (codes "--pw", o_password)
                                                        ∷ (codes "--will-payload", o_will_payload)
                                                        ∷ (codes "--will-qos", o_will_qos)
                                                        ∷ (codes "--will-retain", o_will_retain)
                                                        ∷ (codes "--will-topic", o_will_topic)
                                                        ∷ (codes "-c", o_disable_clean_session)
                                                        ∷ (
                                                          codes "--disable-clean-session",
                                                          o_disable_clean_session,
                                                        )
                                                        ∷ (codes "-N", o_no_eol)
                                                        ∷ (codes "-R", o_no_retain)
                                                        ∷ (codes "-v", o_verbose)
                                                        ∷ (codes "--verbose", o_verbose)
                                                        ∷ [])))))))))))))

-- The first entry whose word is the argument.
unfoldable pub find_option : Bytes → List Entry → Option Opt
find_option arg [] = none
find_option arg ((word, o) ∷ es) = if same arg word then some o else find_option arg es
