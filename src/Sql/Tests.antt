-- ===== src/Sql/Tests.antt =====
-- A template of two values, the first raw, and two clients of one database.
use kryon.Common.{
  ℕ, ◌≡◌, refl, String, [], ◌∷◌, get_key, set_key, delete_key, find, update_where, to_decimal, map,
  List,
}
use kryon.Sql.{
  Value, raw_sql, plain, Registry, build_from, build_query, get_pool, end_pool, client_end,
  client_query, pool_is_dead,
}
use kryon.Sql.Template.{shape, numbered, params_of, build_query-numbered}
use kryon.Sql.Registered.{start, got, client_ended}
use kryon.Sql.Pools.{Serves, client_query-Serves}

abbrev strings : List String
strings = "SELECT " ∷ " FROM t WHERE id = " ∷ " AND x = " ∷ "" ∷ []

abbrev values : List (Value ℕ)
values = raw_sql "a" ∷ plain 7 ∷ plain 9 ∷ []

build_query-run :
    build_query strings values ≡ ("SELECT a FROM t WHERE id = $1 AND x = $2", 7 ∷ 9 ∷ [])
unfolding build_query build_from to_decimal
build_query-run = refl

build_query-numbered_example :
    build_query strings values ≡ (numbered 1 strings (map shape values), params_of strings values)
build_query-numbered_example = build_query-numbered strings values

-- One client is made, and another one ends the pool.
abbrev ended : Registry
ended = client_end "postgres://db" (get_pool "postgres://db" (record { pools = []; made = [] })).0

client_query-run : (client_query "postgres://db" strings values ended).1.0 ≡ 1
unfolding client_query get_pool client_end get_key set_key delete_key find update_where pool_is_dead
    end_pool
client_query-run = refl

client_query-Serves_example :
    let (next, (id, text, params)) = client_query "postgres://db" strings values ended in
    Serves "postgres://db" next id × ((text, params) ≡ build_query strings values)
client_query-Serves_example =
    client_query-Serves (client_ended (got start "postgres://db") "postgres://db") "postgres://db"
      strings values
