-- ===== src/Network/Resolved.antt =====
-- The networks that the two sides resolve agree, and no answer for one is served for the other.
use kryon.Common.{
  ◌≡◌, ◌≢◌, refl, ap, ◌∙◌, String, true, Option, none, some, Bool-cases, inl, inr, arith,
}
use kryon.Network.{
  NetworkId, mainnet, testnet, network_text, network_id, coerce_network, NetworkEnv,
  primary_network, NetworkRequest, is_set, network_from_request, network_is_explicit,
  network_aware_cache_control, network_from_cookies, resolve_client_network, pending_id,
  id_of_param, pending_url_network, write_network_cookie, is_network,
}

-- Where an answer may be cached for all, another request to the same address is for the same network, whatever its
-- cookie says.
network_aware_cache_control-shared :
    (env : NetworkEnv) (r q : NetworkRequest) (shared : String)
    → r.param ≡ q.param
    → network_aware_cache_control r shared ≢ "private, no-store"
    → network_from_request env r ≡ network_from_request env q
unfolding network_aware_cache_control network_is_explicit network_from_request
network_aware_cache_control-shared env r q shared same public = elim (Bool-cases (is_set r.param)) [
  | inl set ↦ let set' : is_set q.param ≡ true = rw (← same) set in rw (set, set', same) refl
  | inr unset ↦ absurd (public (rw unset refl))
]

coerce_network-text : (n fallback : NetworkId) → coerce_network (some (network_text n)) fallback ≡ n
unfolding coerce_network network_id
coerce_network-text mainnet fallback = refl
coerce_network-text testnet fallback = refl

pending-settles :
    (m current n : NetworkId) → pending_id (some m) current ≡ some n → pending_id (some m) n ≡ none
pending-settles m current n h = elim (Bool-cases (is_network m current)) [
  | inl same ↦ absurd (ground (arith, rw same at h))
  | inr other ↦ let e : m ≡ n = ground (arith, rw other at h) in rw (← e) (by_same m)
]
  where
    by_same : (k : NetworkId) → pending_id (some k) k ≡ none
    by_same mainnet = refl
    by_same testnet = refl

-- Once a page has stored the network that its address asks for, the browser and the server both resolve that
-- network, and the address asks for nothing more, so that the page reloads once.
pub pending_url_network-settles :
    (env : NetworkEnv) (param cookie : Option String) (n : NetworkId)
    → pending_url_network env param cookie ≡ some n
    → (resolve_client_network env (write_network_cookie n) ≡ n)
      × (network_from_cookies env (write_network_cookie n) ≡ n)
      × (pending_url_network env param (write_network_cookie n) ≡ none)
unfolding pending_url_network resolve_client_network network_from_cookies write_network_cookie
pending_url_network-settles env param cookie n h =
    let stored = coerce_network-text n (primary_network env) in
    (stored, stored, by_param (id_of_param param) h)
  where
    by_param :
        (o : Option NetworkId)
        → pending_id o (coerce_network cookie (primary_network env)) ≡ some n
        → pending_id o (coerce_network (some (network_text n)) (primary_network env)) ≡ none
    by_param none k = refl
    by_param (some m) k =
        ap (pending_id (some m)) (coerce_network-text n (primary_network env))
        ∙ pending-settles m (coerce_network cookie (primary_network env)) n k
