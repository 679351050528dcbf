-- ===== src/Limiter/Window.antt =====
-- How many requests the limiter of client/lib/rate-limit.ts admits in a window.
use kryon.Common.{
  ℕ, ◌+◌, ◌-◌, ◌≤◌, ◌<◌, ◌≡◌, refl, ◌∙◌, inl, inr, String, Bool, true, false, not, ◌&&◌, Option,
  none, some, List, [], ◌∷◌, length, ltb, leb, str_eq, eq_iff, if◌then◌else◌, keep, arith,
  Bool-cases, All,
}
use kryon.Limiter.{
  Bucket, Buckets, get, set, purge, start, take_turn, local_rate_limit, window_ms, max_keys,
}

-- A request for a key, the limit of its route and the time that the clock reads then.
pub record Turn : Type 0 where
  pub key : String
  pub limit : ℕ
  pub at : ℕ

-- How many of the requests for a key the limiter admits, one after the other.
unfoldable pub admitted : String → List Turn → Buckets → ℕ
admitted key [] buckets = 0
admitted key (t ∷ ts) buckets =
    let (free, later) = local_rate_limit t.key t.limit t.at buckets in
    (if free && str_eq t.key key then 1 else 0) + admitted key ts later

get-set : (key : String) (b : Bucket) (m : Buckets) → get key (set key b m) ≡ some b
unfolding get set
get-set key b [] = grind (arith, eq_iff)
get-set key b ((k, c) ∷ m) = grind (arith, eq_iff, get-set key b m)

get-set_other :
    (key k : String) (b : Bucket) (m : Buckets)
    → str_eq k key ≡ false
    → get key (set k b m) ≡ get key m
unfolding get set
get-set_other key k b [] h = grind (arith, eq_iff)
get-set_other key k b ((j, c) ∷ m) h = grind (arith, eq_iff, get-set_other key k b m h)

get-keep :
    (key : String) (b : Bucket) (p : String × Bucket → Bool) (m : Buckets)
    → ((k : String) → p (k, b) ≡ true)
    → get key m ≡ some b
    → get key (keep p m) ≡ some b
unfolding get keep
get-keep key b p [] q h = h
get-keep key b p ((k, c) ∷ m) q h = elim (Bool-cases (str_eq k key)) [
  | inl e ↦
      let same : some c ≡ some b = grind (arith, h) in
      let kept : p (k, c) ≡ true = grind (arith, q k) in rw (kept, e, same)
  | inr e ↦
      let ih = get-keep key b p m q (ground (arith, h)) in
      elim (Bool-cases (p (k, c))) [ inl f ↦ rw (f, e, ih) | inr f ↦ rw (f, ih) ]
]

get-purge :
    (key : String) (b : Bucket) (now : ℕ) (m : Buckets)
    → now < b.reset_at
    → get key m ≡ some b
    → get key (purge now m) ≡ some b
unfolding purge
get-purge key b now m fresh h = elim (Bool-cases (ltb max_keys (length m))) [
  | inl e ↦ rw (e, get-keep key b (λ e. not (leb e.1.reset_at now)) m (λ k. ground arith) h)
  | inr e ↦ rw (e, h)
]

running :
    (key : String) (limit now : ℕ) (b : Bucket) (m : Buckets)
    → now < b.reset_at
    → take_turn key limit now m (some b)
      ≡ (leb (b.count + 1) limit, set key (record b { count = b.count + 1 }) m)
running key limit now b m fresh = ground arith

-- A turn touches the bucket of its own key only.
take_turn-other :
    (key k : String) (limit now : ℕ) (m : Buckets) (o : Option Bucket)
    → str_eq k key ≡ false
    → get key (take_turn k limit now m o).1 ≡ get key m
take_turn-other key k limit now m none h = get-set_other key k _ m h
take_turn-other key k limit now m (some c) h = elim (Bool-cases (leb c.reset_at now)) [
  | inl e ↦ rw (e, get-set_other key k _ m h)
  | inr e ↦ rw (e, get-set_other key k _ m h)
]

-- A request for another key leaves the bucket of a key alone while it has not expired.
other_turn :
    (key : String) (b : Bucket) (t : Turn) (m : Buckets)
    → t.at < b.reset_at
    → str_eq t.key key ≡ false
    → get key m ≡ some b
    → get key (local_rate_limit t.key t.limit t.at m).1 ≡ some b
unfolding local_rate_limit
other_turn key b t m fresh other h =
    take_turn-other key t.key t.limit t.at (purge t.at m) (get t.key (purge t.at m)) other
    ∙ get-purge key b t.at m fresh h

-- A bucket that has not expired counts the request.
own_turn :
    (key : String) (limit now : ℕ) (b : Bucket) (m : Buckets)
    → now < b.reset_at
    → get key m ≡ some b
    → local_rate_limit key limit now m
      ≡ (leb (b.count + 1) limit, set key (record b { count = b.count + 1 }) (purge now m))
unfolding local_rate_limit
own_turn key limit now b m fresh h =
    rw (get-purge key b now m fresh h, running key limit now b (purge now m) fresh)

within_bucket :
    (key : String) (most : ℕ) (ts : List Turn) (m : Buckets) (b : Bucket)
    → All (λ t. (t.limit ≤ most) × (t.at < b.reset_at)) ts
    → get key m ≡ some b
    → admitted key ts m ≤ most - b.count
unfolding admitted
within_bucket key most [] m b all h = ground arith
within_bucket key most (t ∷ ts) m b ((small, fresh), all) h = elim (Bool-cases (str_eq t.key key)) [
  | inl e ↦
      let same : t.key ≡ key = grind (arith, eq_iff, e) in
      let h' : get t.key m ≡ some b = cc (h, same) in
      let turn = own_turn t.key t.limit t.at b m fresh h' in
      let counted : Bucket = record b { count = b.count + 1 } in
      let next : get key (set t.key counted (purge t.at m)) ≡ some counted =
        rw (same, get-set key counted (purge t.at m)) in
      let ih = within_bucket key most ts _ counted all next in
      let bound : (if leb (b.count + 1) t.limit && str_eq t.key key then 1 else 0)
            + admitted key ts (set t.key counted (purge t.at m))
          ≤ most - b.count =
        ground (arith, e, ih) in
      rw turn bound
  | inr e ↦
      let ih = within_bucket key most ts _ b all (other_turn key b t m fresh e h) in
      ground (arith, e, ih)
]

-- Whatever bucket a key has, it has expired.
abbrev pub IsFresh : String → ℕ → Buckets → Type 0
IsFresh key now m = All (λ e. str_eq e.0 key ≡ true → e.1.reset_at ≤ now) m

keep-IsFresh :
    (key : String) (now : ℕ) (p : String × Bucket → Bool) (m : Buckets)
    → IsFresh key now m
    → IsFresh key now (keep p m)
unfolding keep
keep-IsFresh key now p [] h = h
keep-IsFresh key now p (e ∷ m) (h, hs) = elim (Bool-cases (p e)) [
  | inl q ↦ rw q (h, keep-IsFresh key now p m hs)
  | inr q ↦ rw q (keep-IsFresh key now p m hs)
]

purge-IsFresh :
    (key : String) (now : ℕ) (m : Buckets) → IsFresh key now m → IsFresh key now (purge now m)
unfolding purge
purge-IsFresh key now m h = elim (Bool-cases (ltb max_keys (length m))) [
  | inl e ↦ rw e (keep-IsFresh key now (λ e. not (leb e.1.reset_at now)) m h)
  | inr e ↦ rw e h
]

get-IsFresh :
    (key : String) (limit now : ℕ) (m other : Buckets)
    → IsFresh key now m
    → take_turn key limit now other (get key m) ≡ start key now other
unfolding get
get-IsFresh key limit now [] other h = refl
get-IsFresh key limit now ((k, b) ∷ m) other (h, hs) = elim (Bool-cases (str_eq k key)) [
  | inl e ↦ let old : leb b.reset_at now ≡ true = ground (arith, h e) in rw (e, old)
  | inr e ↦ rw (e, get-IsFresh key limit now m other hs)
]

-- From a request for a key whose bucket has expired on, with limits of at most `most`, the limiter
-- admits at most `most` requests for that key in a window.
pub admitted-window :
    (most : ℕ) (t : Turn) (ts : List Turn) (m : Buckets)
    → 1 ≤ most
    → IsFresh t.key t.at m
    → All (λ u. (u.limit ≤ most) × (u.at < t.at + window_ms)) ts
    → admitted t.key (t ∷ ts) m ≤ most
unfolding admitted local_rate_limit
admitted-window most t ts m some_room fresh all =
    let swept = purge t.at m in
    let opened : Bucket = record { count = 1; reset_at = t.at + window_ms } in
    let first = get-IsFresh t.key t.limit t.at swept swept (purge-IsFresh t.key t.at m fresh) in
    let later = within_bucket t.key most ts _ opened all (get-set t.key opened swept) in
    let bound : (if true && str_eq t.key t.key then 1 else 0)
          + admitted t.key ts (set t.key opened swept)
        ≤ most =
      ground (arith, later) in
    rw first bound
