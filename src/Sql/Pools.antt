-- ===== src/Sql/Pools.antt =====
-- The registry of the pools under any calls: a query goes to a live pool of its own URL.
use kryon.Common.{
  ℕ, ◌≡◌, refl, String, false, Option, none, some, List, length, get_key, delete_key,
  get_key-set_key, Bool-cases, inl, inr,
}
use kryon.Sql.{
  Pool, Registry, pool_is_dead, new_pool, or_new, get_pool, client_query, Value, build_query,
}
use kryon.Sql.Registered.{Reached, made_pool, fresh, IsSound, Reached-IsSound, made_pool-here}

-- A pool that is live, connects to the URL, and is what the next query for that URL finds
pub record Serves (url : String) (s : Registry) (id : ℕ) : Type 0 where
  pub pool : Pool
  pub made : made_pool id s.made ≡ some pool
  pub connects : pool.url ≡ url
  pub alive : pool.is_dead ≡ false
  pub shared : get_key url s.pools ≡ some id

new_pool-Serves : (url : String) (s : Registry) → Serves url (new_pool url s).0 (new_pool url s).1
new_pool-Serves url s = record {
  pool = fresh url (length s.made);
  made = made_pool-here url (length s.made) s.made;
  connects = refl;
  alive = refl;
  shared = get_key-set_key url (length s.made) (delete_key url s.pools);
}

get_pool-Serves :
    (url : String) (s : Registry) → IsSound s → Serves url (get_pool url s).0 (get_pool url s).1
unfolding get_pool
get_pool-Serves url s h = by_found (get_key url s.pools) refl
  where
    by_found :
        (o : Option ℕ) → get_key url s.pools ≡ o → Serves url (or_new url s o).0 (or_new url s o).1
    by_found none e = new_pool-Serves url s
    by_found (some id) e = elim (Bool-cases (pool_is_dead id s.made)) [
      | inl dead ↦ rw dead (new_pool-Serves url s)
      | inr alive ↦
          let (p, there, same) = h.keyed url id e in
          rw alive (record {
            pool = p;
            made = there;
            connects = same;
            alive = rw (there, pool_is_dead) at alive;
            shared = e;
          })
    ]

-- After any calls of any clients, also when a client or other code has ended pools, a query goes to a pool that was not
-- ended and connects to the URL of the client; the next query for that URL finds the same pool. What is sent is what
-- buildQuery makes of the template.
pub client_query-Serves :
    {A : Type 0} {s : Registry}
    → Reached s
    → (url : String) (strings : List String) (values : List (Value A))
    → let (next, (id, text, params)) = client_query url strings values s in
      Serves url next id × ((text, params) ≡ build_query strings values)
unfolding client_query
client_query-Serves r url strings values = (get_pool-Serves url _ (Reached-IsSound r), refl)
