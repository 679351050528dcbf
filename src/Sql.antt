-- ===== src/Sql.antt =====
-- client/lib/sql.ts: the queries that the tagged template builds, and the pools of connections that clients share.
pub mod Template
pub mod Registered
pub mod Pools
pub mod Tests
use kryon.Common.{
  get_key, set_key, delete_key, ℕ, ◌+◌, String, ◌<>◌, Bool, true, false, not, ◌||◌, Option, none,
  some, List, [], ◌∷◌, ◌++◌, length, ◌==◌, str_eq, if◌then◌else◌, to_decimal, update_where, find,
}

-- A value in a template: raw SQL, or anything else
pub data Value (A : Type 0) : Type 0 where
  raw_sql : String → Value A
  plain : A → Value A

-- The loop of `buildQuery` from a text and the parameters so far on
unfoldable pub build_from :
    {A : Type 0} → List String → List (Value A) → String → List A → String × List A
build_from [] values text params = (text, params)
build_from (s ∷ strings) [] text params = build_from strings [] (text <> s) params
build_from (s ∷ strings) (raw_sql t ∷ values) text params =
    build_from strings values (text <> s <> t) params
build_from (s ∷ strings) (plain v ∷ values) text params =
    build_from strings values (text <> s <> "$" <> to_decimal (length params + 1))
      (params ++ v ∷ [])

unfoldable pub build_query : {A : Type 0} → List String → List (Value A) → String × List A
unfolding build_from
build_query strings values = build_from strings values "" []

-- A pool of `pg`, by its number, the URL it connects to, and whether someone has called `end` on it
pub record Pool : Type 0 where
  pub id : ℕ
  pub url : String
  pub is_dead : Bool

-- The map `pools`, which names pools by their numbers, and all pools that were made
pub record Registry : Type 0 where
  pub pools : List (String × ℕ)
  pub made : List Pool

-- `poolIsDead` of the pool of a number
unfoldable pub pool_is_dead : ℕ → List Pool → Bool
unfolding find
pool_is_dead id made = elim (find (λ p. p.id == id) made) [ none ↦ true | some p ↦ p.is_dead ]

-- `new Pool(cfg)`, and `pools.set(url, pool)`
abbrev pub new_pool : String → Registry → Registry × ℕ
new_pool url s =
    let id = length s.made in
    (
      record {
        pools = set_key url id (delete_key url s.pools);
        made = record { id = id; url = url; is_dead = false } ∷ s.made;
      },
      id,
    )

abbrev pub or_new : String → Registry → Option ℕ → Registry × ℕ
or_new url s none = new_pool url s
or_new url s (some id) = if not (pool_is_dead id s.made) then (s, id) else new_pool url s

unfoldable pub get_pool : String → Registry → Registry × ℕ
unfolding get_key delete_key pool_is_dead
get_pool url s = or_new url s (get_key url s.pools)

-- `pool.end()`
unfoldable pub end_pool : ℕ → Registry → Registry
unfolding update_where
end_pool id s = record s {
  made = update_where (λ p. p.id == id) (λ p. record p { is_dead = true }) s.made;
}

abbrev pub end_of : String → Registry → Option ℕ → Registry
end_of url s none = s
end_of url s (some id) = end_pool id (record s { pools = delete_key url s.pools })

-- `client.end()`
unfoldable pub client_end : String → Registry → Registry
unfolding get_key delete_key end_pool
client_end url s = end_of url s (get_key url s.pools)

-- A query of a client: the pool it goes to, and the text and the parameters
unfoldable pub client_query :
    {A : Type 0}
    → String
    → List String
    → List (Value A)
    → Registry
    → Registry × (ℕ × String × List A)
unfolding build_query get_pool
client_query url strings values s =
    let (text, params) = build_query strings values in
    let (next, id) = get_pool url s in (next, (id, text, params))
