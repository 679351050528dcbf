-- ===== src/Network.antt =====
-- Which network a request, a page and the browser are for: client/lib/network-resolve.ts, client/lib/network-server.ts
-- and the ids of client/config/networks.ts.
pub mod Resolved
pub mod Tests
use kryon.Common.{String, Bool, true, false, not, Option, none, some, str_eq, if◌then◌else◌}

pub data NetworkId : Type 0 where
  mainnet testnet : NetworkId

abbrev pub network_text : NetworkId → String
network_text mainnet = "mainnet"
network_text testnet = "testnet"

-- `isNetworkId`, with the id of the text
unfoldable pub network_id : String → Option NetworkId
network_id s =
    if str_eq s "mainnet" then some mainnet else if str_eq s "testnet" then some testnet else none

abbrev or_default : Option NetworkId → NetworkId → NetworkId
or_default none fallback = fallback
or_default (some n) fallback = n

-- A text, or no value
unfoldable pub coerce_network : Option String → NetworkId → NetworkId
unfolding network_id
coerce_network none fallback = fallback
coerce_network (some s) fallback = or_default (network_id s) fallback

-- The variables of the environment: the network of the deployment, and the secrets of the operator.
pub record NetworkEnv : Type 0 where
  pub public_stellar_network : Option String
  pub operator_secret_mainnet : Option String
  pub operator_secret_testnet : Option String
  pub operator_secret : Option String

unfoldable pub primary_network : NetworkEnv → NetworkId
unfolding coerce_network
primary_network env = coerce_network env.public_stellar_network testnet

-- The parameter `network` of the address of a request, and its cookie, decoded
pub record NetworkRequest : Type 0 where
  pub param : Option String
  pub cookie : Option String

abbrev pub is_set : Option String → Bool
is_set none = false
is_set (some s) = not (str_eq s "")

unfoldable pub network_from_request : NetworkEnv → NetworkRequest → NetworkId
unfolding primary_network
network_from_request env r =
    if is_set r.param
    then coerce_network r.param (primary_network env)
    else coerce_network r.cookie (primary_network env)

unfoldable pub network_is_explicit : NetworkRequest → Bool
network_is_explicit r = is_set r.param

unfoldable pub network_aware_cache_control : NetworkRequest → String → String
unfolding network_is_explicit
network_aware_cache_control r shared = if network_is_explicit r then shared else "private, no-store"

-- A page that the server renders, and the browser: both read the cookie alone.
unfoldable pub network_from_cookies : NetworkEnv → Option String → NetworkId
unfolding primary_network
network_from_cookies env cookie = coerce_network cookie (primary_network env)

unfoldable pub resolve_client_network : NetworkEnv → Option String → NetworkId
unfolding primary_network
resolve_client_network env cookie = coerce_network cookie (primary_network env)

abbrev pub is_network : NetworkId → NetworkId → Bool
is_network mainnet mainnet = true
is_network mainnet testnet = false
is_network testnet mainnet = false
is_network testnet testnet = true

abbrev pub pending_id : Option NetworkId → NetworkId → Option NetworkId
pending_id none current = none
pending_id (some n) current = if is_network n current then none else some n

abbrev pub id_of_param : Option String → Option NetworkId
id_of_param none = none
id_of_param (some s) = network_id s

-- A network in the address of the page that is not that of the cookie
unfoldable pub pending_url_network : NetworkEnv → Option String → Option String → Option NetworkId
unfolding resolve_client_network network_id
pending_url_network env param cookie =
    pending_id (id_of_param param) (resolve_client_network env cookie)

-- What `writeNetworkCookie` stores under the name of the cookie
unfoldable pub write_network_cookie : NetworkId → Option String
write_network_cookie n = some (network_text n)

abbrev explicit_secret : NetworkEnv → NetworkId → Option String
explicit_secret env mainnet = env.operator_secret_mainnet
explicit_secret env testnet = env.operator_secret_testnet

unfoldable pub matcher_operator_secret : NetworkEnv → NetworkId → Option String
unfolding primary_network
matcher_operator_secret env network =
    if is_set (explicit_secret env network)
    then explicit_secret env network
    else if is_network network (primary_network env)
    then env.operator_secret
    else none
