-- ===== src/Config.antt =====
-- client/src/cbltest/configparser.py: the servers that a configuration file names.
--
-- The file is read elsewhere: the model starts from the JSON object in it.
pub mod Topology
use couchbase_lite_tests.Prelude.{
  Bool, true, false, not, ◌||◌, ◌≡◌, ◌≢◌, refl, Option, none, some, List, [], String, ℤ, pos,
  if◌then◌else◌, arith,
}
use couchbase_lite_tests.Prelude.Dict.{Dict, lookup, has_key, lookup_of_has_key}
use couchbase_lite_tests.Prelude.Result.{
  Result, ok, err, Error, value_error, key_error, ◌>>=◌, ◌>>◌, guard, >>=-eq-ok,
}
use couchbase_lite_tests.Json.{
  Value, str_type, int_type, bool_type, list_type, dict_type, assert_string_entry, get_or_default,
  get_typed, get_typed_nonnull,
}

pub record TestServerInfo : Type 0 where
  pub url : String
  pub dataset_version : Option String

unfoldable pub test_server_info : Dict Value → Result TestServerInfo
unfolding assert_string_entry get_typed has_key
test_server_info fields = do
  url ← assert_string_entry fields "url"
  dataset_version ←
      if has_key "dataset_version" fields
      then get_typed fields "dataset_version" str_type
      else ok none
  ok (record { url = url; dataset_version = dataset_version })

pub record SyncGatewayInfo : Type 0 where
  pub hostname : String
  pub port : ℤ
  pub admin_port : ℤ
  pub rbac_user : String
  pub rbac_password : String
  pub uses_tls : Bool
  pub cluster_index : ℤ

unfoldable pub sync_gateway_info : Dict Value → Result SyncGatewayInfo
unfolding assert_string_entry get_or_default
sync_gateway_info fields = do
  hostname ← assert_string_entry fields "hostname"
  port ← get_or_default fields "port" int_type (pos 4984)
  admin_port ← get_or_default fields "admin_port" int_type (pos 4985)
  rbac_user ← get_or_default fields "rbac_user" str_type "admin"
  rbac_password ← get_or_default fields "rbac_password" str_type "password"
  uses_tls ← get_or_default fields "tls" bool_type false
  cluster_index ← get_or_default fields "cluster_index" int_type (pos 0)
  ok (record {
    hostname = hostname;
    port = port;
    admin_port = admin_port;
    rbac_user = rbac_user;
    rbac_password = rbac_password;
    uses_tls = uses_tls;
    cluster_index = cluster_index;
  })

pub record CouchbaseServerInfo : Type 0 where
  pub hostname : String
  pub admin_user : String
  pub admin_password : String
  pub cluster_index : ℤ

unfoldable pub couchbase_server_info : Dict Value → Result CouchbaseServerInfo
unfolding assert_string_entry get_or_default
couchbase_server_info fields = do
  hostname ← assert_string_entry fields "hostname"
  admin_user ← get_or_default fields "admin_user" str_type "Administrator"
  admin_password ← get_or_default fields "admin_password" str_type "password"
  cluster_index ← get_or_default fields "cluster_index" int_type (pos 0)
  ok (record {
    hostname = hostname;
    admin_user = admin_user;
    admin_password = admin_password;
    cluster_index = cluster_index;
  })

pub record EdgeServerInfo : Type 0 where
  pub hostname : String
  pub admin_user : String
  pub admin_password : String
  pub config_path : String

-- The path below the root of the repository, which the file system gives, is an argument.
unfoldable pub edge_server_info : Result String → Dict Value → Result EdgeServerInfo
unfolding assert_string_entry get_or_default
edge_server_info default_path fields = do
  hostname ← assert_string_entry fields "hostname"
  admin_user ← get_or_default fields "admin_user" str_type "admin_user"
  admin_password ← get_or_default fields "admin_password" str_type "password"
  default ← default_path
  config_path ← get_or_default fields "config_path" str_type default
  ok (record {
    hostname = hostname;
    admin_user = admin_user;
    admin_password = admin_password;
    config_path = config_path;
  })

-- The elements of the lists are not looked at: neither their types nor those of greenboard's entries.
pub record ParsedConfig : Type 0 where
  pub test_servers : List Value
  pub sync_gateways : List Value
  pub couchbase_servers : List Value
  pub load_balancers : List Value
  pub edge_servers : List Value
  pub greenboard : Option (Dict Value)
  pub logslurp_url : Option String

unfoldable pub is_malformed : Option (Dict Value) → Bool
unfolding has_key
is_malformed none = false
is_malformed (some board) =
    not (has_key "hostname" board)
    || not (has_key "username" board)
    || not (has_key "password" board)

unfoldable pub parsed_config : Dict Value → Result ParsedConfig
unfolding get_typed get_typed_nonnull is_malformed
parsed_config json = do
  test_servers ← get_typed_nonnull json "test-servers" list_type []
  sync_gateways ← get_typed_nonnull json "sync-gateways" list_type []
  couchbase_servers ← get_typed_nonnull json "couchbase-servers" list_type []
  load_balancers ← get_typed_nonnull json "load-balancers" list_type []
  edge_servers ← get_typed_nonnull json "edge-servers" list_type []
  greenboard ← get_typed json "greenboard" dict_type
  guard (not (is_malformed greenboard)) value_error
  logslurp_url ← get_typed json "logslurp" str_type
  ok (record {
    test_servers = test_servers;
    sync_gateways = sync_gateways;
    couchbase_servers = couchbase_servers;
    load_balancers = load_balancers;
    edge_servers = edge_servers;
    greenboard = greenboard;
    logslurp_url = logslurp_url;
  })

abbrev subscript : String → Dict Value → Result (Option Value)
subscript key d = elim (lookup key d) [ none ↦ err key_error | some v ↦ ok (some v) ]

abbrev board_entry : String → Option (Dict Value) → Result (Option Value)
board_entry key none = ok none
board_entry key (some board) = subscript key board

unfoldable pub greenboard_url : ParsedConfig → Result (Option Value)
unfolding lookup
greenboard_url c = board_entry "hostname" c.greenboard

unfoldable pub greenboard_username : ParsedConfig → Result (Option Value)
unfolding lookup
greenboard_username c = board_entry "username" c.greenboard

unfoldable pub greenboard_password : ParsedConfig → Result (Option Value)
unfolding lookup
greenboard_password c = board_entry "password" c.greenboard

greenboard_of_parsed :
    (json : Dict Value) (c : ParsedConfig)
    → parsed_config json ≡ ok c
    → is_malformed c.greenboard ≡ false
unfolding parsed_config
greenboard_of_parsed json c h =
    let (a, _, h₁) = >>=-eq-ok (get_typed_nonnull json "test-servers" list_type []) _ h in
    let (b, _, h₂) = >>=-eq-ok (get_typed_nonnull json "sync-gateways" list_type []) _ h₁ in
    ground arith

subscript_of_has_key :
    (key : String) (board : Dict Value) (e : Error)
    → has_key key board ≡ true
    → subscript key board ≢ err e
subscript_of_has_key key board e h =
    let (v, found) = lookup_of_has_key key board h in λ z. cc (found, z)

-- Of a configuration that was accepted, the three values of greenboard are read without a KeyError.
pub parsed_config-greenboard :
    (json : Dict Value) (c : ParsedConfig) (e : Error)
    → parsed_config json ≡ ok c
    → (greenboard_url c ≢ err e) × (greenboard_username c ≢ err e) × (greenboard_password c ≢ err e)
unfolding greenboard_url greenboard_username greenboard_password
parsed_config-greenboard json c e h = entries c.greenboard (greenboard_of_parsed json c h)
  where
    entries :
        (board : Option (Dict Value))
        → is_malformed board ≡ false
        → (board_entry "hostname" board ≢ err e)
          × (board_entry "username" board ≢ err e)
          × (board_entry "password" board ≢ err e)
    entries none fine = (λ z. cc, λ z. cc, λ z. cc)
    entries (some board) fine =
        unfold is_malformed in
        (
          subscript_of_has_key "hostname" board e (ground arith),
          subscript_of_has_key "username" board e (ground arith),
          subscript_of_has_key "password" board e (ground arith),
        )
