-- ===== src/Network/Tests.antt =====
-- A deployment for mainnet, and a link to testnet.
use kryon.Common.{◌≡◌, refl, none, some}
use kryon.Network.{
  NetworkEnv, mainnet, testnet, network_id, pending_url_network, resolve_client_network,
  network_from_cookies, write_network_cookie, matcher_operator_secret, primary_network,
  coerce_network,
}
use kryon.Network.Resolved.{pending_url_network-settles}

abbrev env : NetworkEnv
env = record {
  public_stellar_network = some "mainnet";
  operator_secret_mainnet = none;
  operator_secret_testnet = none;
  operator_secret = some "S";
}

-- The old variable is the secret of the network of the deployment, and of no other.
matcher_operator_secret-run :
    (matcher_operator_secret env mainnet ≡ some "S") × (matcher_operator_secret env testnet ≡ none)
unfolding matcher_operator_secret primary_network coerce_network network_id
matcher_operator_secret-run = (refl, refl)

asks_testnet : pending_url_network env (some "testnet") none ≡ some testnet
unfolding pending_url_network resolve_client_network network_id coerce_network primary_network
asks_testnet = refl

pending_url_network-settles_example :
    (resolve_client_network env (write_network_cookie testnet) ≡ testnet)
    × (network_from_cookies env (write_network_cookie testnet) ≡ testnet)
    × (pending_url_network env (some "testnet") (write_network_cookie testnet) ≡ none)
pending_url_network-settles_example =
    pending_url_network-settles env (some "testnet") none testnet asks_testnet
