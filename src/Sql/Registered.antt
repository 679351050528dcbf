-- ===== src/Sql/Registered.antt =====
-- The registry of the pools under any calls: its map names pools of the URLs of its keys.
use kryon.Common.{
  length-update_where, ℕ, if◌then◌else◌, ◌<◌, ◌≡◌, refl, sym, ap, ◌∙◌, String, true, false, Option,
  none, some, List, [], ◌∷◌, length, ◌==◌, str_eq, get_key, delete_key, get_key-set_key,
  get_key-set_key_other, get_key-delete_key, get_key-delete_key_other, find, update_where, arith,
  eq_iff, Bool-cases, inl, inr, ◌⊎◌, subst,
}
use kryon.Sql.{
  Pool, Registry, pool_is_dead, new_pool, or_new, get_pool, end_pool, end_of, client_end,
}

abbrev pub made_pool : ℕ → List Pool → Option Pool
made_pool id made = find (λ p. p.id == id) made

-- The calls of any clients, and of code that ends a pool itself
pub data Reached : Registry → Type 0 where
  start : Reached (record { pools = []; made = [] })
  got : {s : Registry} → Reached s → (url : String) → Reached (get_pool url s).0
  client_ended : {s : Registry} → Reached s → (url : String) → Reached (client_end url s)
  pool_ended : {s : Registry} → Reached s → (id : ℕ) → Reached (end_pool id s)

-- Every number in the map is that of a pool with the URL of its key, and the next number is new.
pub record IsSound (s : Registry) : Type 0 where
  numbered : (id : ℕ) (p : Pool) → made_pool id s.made ≡ some p → id < length s.made
  pub keyed :
      (url : String) (id : ℕ)
      → get_key url s.pools ≡ some id
      → (p : Pool) × (made_pool id s.made ≡ some p) × (p.url ≡ url)

abbrev pub fresh : String → ℕ → Pool
fresh url id = record { id = id; url = url; is_dead = false }

pub made_pool-here :
    (url : String) (id : ℕ) (made : List Pool)
    → made_pool id (fresh url id ∷ made) ≡ some (fresh url id)
unfolding find
made_pool-here url id made = ground arith

made_pool-below :
    (url : String) (n id : ℕ) (made : List Pool)
    → id < n
    → made_pool id (fresh url n ∷ made) ≡ made_pool id made
unfolding find
made_pool-below url n id made h = ground arith

keyed_after :
    (url : String) (s : Registry)
    → IsSound s
    → (u : String) (id : ℕ) → get_key u (new_pool url s).0.pools ≡ some id
    → (str_eq url u ≡ true) ⊎ (str_eq url u ≡ false)
    → (p : Pool) × (made_pool id (new_pool url s).0.made ≡ some p) × (p.url ≡ u)
keyed_after url s h u id e (inl same) =
    let q : url ≡ u = ground (arith, same, eq_iff url u) in
    let there = get_key-set_key url (length s.made) (delete_key url s.pools) in
    let n : length s.made ≡ id = cc (there, e, q) in
    (
      fresh url id,
      subst (λ k. made_pool id (fresh url k ∷ s.made) ≡ some (fresh url id)) (sym n)
          (made_pool-here url id s.made),
      q,
    )
keyed_after url s h u id e (inr other) =
    let old =
      sym (get_key-delete_key_other u url s.pools other)
      ∙ sym (get_key-set_key_other u url (length s.made) (delete_key url s.pools) other)
      ∙ e in
    let (p, there, same) = h.keyed u id old in
    (p, made_pool-below url (length s.made) id s.made (h.numbered id p there) ∙ there, same)

new_pool-IsSound : (url : String) (s : Registry) → IsSound s → IsSound (new_pool url s).0
new_pool-IsSound url s h = record {
  numbered = λ id p e. elim (Bool-cases (length s.made == id)) [
    | inl same ↦ ground (arith, same)
    | inr other ↦
        let old : made_pool id s.made ≡ some p = unfold find in rw other at e in
        let below = h.numbered id p old in omega (arith, below)
  ];
  keyed = λ u id e. keyed_after url s h u id e (Bool-cases (str_eq url u));
}

get_pool-IsSound : (url : String) (s : Registry) → IsSound s → IsSound (get_pool url s).0
unfolding get_pool
get_pool-IsSound url s h = by_found (get_key url s.pools)
  where
    by_found : (o : Option ℕ) → IsSound (or_new url s o).0
    by_found none = new_pool-IsSound url s h
    by_found (some id) = elim (Bool-cases (pool_is_dead id s.made)) [
      | inl dead ↦ rw dead (new_pool-IsSound url s h)
      | inr alive ↦ rw alive h
    ]

abbrev ended : ℕ → Pool → Pool
ended k p = if p.id == k then record p { is_dead = true } else p

abbrev ended_some : ℕ → Option Pool → Option Pool
ended_some k none = none
ended_some k (some p) = some (ended k p)

-- Ending a pool keeps the numbers and the URLs.
made_pool-end_pool :
    (id k : ℕ) (made : List Pool)
    → made_pool id (update_where (λ p. p.id == k) (λ p. record p { is_dead = true }) made)
      ≡ ended_some k (made_pool id made)
unfolding find update_where
made_pool-end_pool id k [] = refl
made_pool-end_pool id k (p ∷ rest) =
    let ih = made_pool-end_pool id k rest in
    elim (Bool-cases (p.id == k)) [
      | inl hit ↦ ground (arith, hit, ih)
      | inr miss ↦ ground (arith, miss, ih)
    ]

end_pool-IsSound : (k : ℕ) (s : Registry) → IsSound s → IsSound (end_pool k s)
unfolding end_pool
end_pool-IsSound k s h = record {
  numbered =
      λ id q e. let (p, there) = was id q e in rw length-update_where (h.numbered id p there);
  keyed = λ url id e.
      let (p, there, same) = h.keyed url id e in
      (ended k p, made_pool-end_pool id k s.made ∙ ap (ended_some k) there, by_mark p same);
}
  where
    was :
        (id : ℕ) (q : Pool)
        → made_pool id (end_pool k s).made ≡ some q
        → (p : Pool) × (made_pool id s.made ≡ some p)
    was id q e = by_found (made_pool id s.made) refl (sym (made_pool-end_pool id k s.made) ∙ e)
      where
        by_found :
            (o : Option Pool)
            → made_pool id s.made ≡ o
            → ended_some k o ≡ some q
            → (p : Pool) × (made_pool id s.made ≡ some p)
        by_found none here g = absurd (ground (arith, g))
        by_found (some p) here g = (p, here)

    by_mark : {url : String} (p : Pool) → p.url ≡ url → (ended k p).url ≡ url
    by_mark p same = ground (arith, same)

client_end-IsSound : (url : String) (s : Registry) → IsSound s → IsSound (client_end url s)
unfolding client_end
client_end-IsSound url s h = by_found (get_key url s.pools)
  where
    removed : IsSound (record s { pools = delete_key url s.pools })
    removed = record {
      numbered = h.numbered;
      keyed = λ u id e. elim (Bool-cases (str_eq url u)) [
        | inl same ↦
            let q : url ≡ u = ground (arith, same, eq_iff url u) in
            let gone = get_key-delete_key url s.pools in absurd (cc (gone, e, q))
        | inr other ↦ h.keyed u id (sym (get_key-delete_key_other u url s.pools other) ∙ e)
      ];
    }

    by_found : (o : Option ℕ) → IsSound (end_of url s o)
    by_found none = h
    by_found (some id) = end_pool-IsSound id _ removed

pub Reached-IsSound : {s : Registry} → Reached s → IsSound s
Reached-IsSound start = record {
  numbered = λ id p e. absurd (unfold find in cc e);
  keyed = λ url id e. absurd (unfold get_key in cc e);
}
Reached-IsSound (got r url) = get_pool-IsSound url _ (Reached-IsSound r)
Reached-IsSound (client_ended r url) = client_end-IsSound url _ (Reached-IsSound r)
Reached-IsSound (pool_ended r id) = end_pool-IsSound id _ (Reached-IsSound r)
