-- ===== src/Controller/Proxy/Text.antt =====
-- The JSON text that constructProxyYaml assembles.
use verify_directory_operato.Base.{ℕ, suc, String, ◌<>◌, List, [], ◌∷◌, map, if◌then◌else◌}
use verify_directory_operato.Base.Int.{itoa, pos}
use verify_directory_operato.Names.{get_replica_pod_name}
use verify_directory_operato.Controller.Handle.{Handle}

-- The names of the replicas, in the document's order.
unfoldable pub replica_names : Handle → List String
replica_names h = map (get_replica_pod_name h.directory) h.directory.spec.pvcs

-- The entries behind the first are written after a comma.
unfoldable pub with_commas : List String → String
with_commas [] = ""
with_commas (entry ∷ entries) = "," <> (entry <> with_commas entries)

unfoldable pub comma_separated : List String → String
unfolding with_commas
comma_separated [] = ""
comma_separated (entry ∷ entries) = entry <> with_commas entries

server_entry : String → String
server_entry pod = "{ \"name\": \"" <> (pod <> "\" }")

unfoldable pub servers_text : List String → String
unfolding server_entry comma_separated
servers_text names = "[" <> (comma_separated (map server_entry names) <> "]")

suffix_entry : String → ℕ → String → String
suffix_entry servers idx suffix =
    "{ \"base\": \""
    <> (suffix
        <> ("\", \"name\": \"split_"
            <> (itoa (pos idx) <> ("\", \"servers\": " <> (servers <> " }")))))

suffix_entries : String → ℕ → List String → List String
suffix_entries servers idx [] = []
suffix_entries servers idx (suffix ∷ suffixes) =
    suffix_entry servers idx suffix ∷ suffix_entries servers (suc idx) suffixes

unfoldable pub suffixes_text : Handle → String
unfolding suffix_entry suffix_entries servers_text replica_names
suffixes_text h =
    "["
    <> (comma_separated (suffix_entries (servers_text (replica_names h)) 0 h.config.suffixes)
        <> "]")

group_entry : Handle → String → String
group_entry h pod =
    "{ \"name\": \""
    <> (pod
        <> ("\", \"id\": \""
            <> (pod
                <> ("\", \"target\": \""
                    <> ((if h.config.secure then "ldaps" else "ldap")
                        <> ("://"
                            <> (pod
                                <> (":"
                                    <> (itoa h.config.port
                                        <> ("\", \"user\": { \"dn\": \""
                                            <> (h.config.admin_dn
                                                <> ("\", \"password\": \""
                                                    <> (h.config.admin_pwd <> "\" } }")))))))))))))

unfoldable pub server_groups_text : Handle → String
unfolding group_entry comma_separated replica_names
server_groups_text h =
    "[ { \"name\": \"proxy\", \"servers\": ["
    <> (comma_separated (map (group_entry h) (replica_names h)) <> "] } ]")

-- The whole document, from the base configuration without its last brace.
unfoldable pub proxy_document : Handle → String → String
unfolding server_groups_text suffixes_text
proxy_document h front =
    front
    <> (", \"proxy\": { \"server-groups\": "
        <> (server_groups_text h <> (", \"suffixes\": " <> (suffixes_text h <> " } }"))))
