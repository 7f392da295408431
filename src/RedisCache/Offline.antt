-- ===== src/RedisCache/Offline.antt =====
-- The cache while Redis cannot be used, and what its map in memory holds.
use text.Mathlib.Text.{starts_with}
use nexus_ide.Common.Dict
use nexus_ide.Common.Dict.{Dict, get-put, get-delete}
use nexus_ide.Common.{
  ℕ, String, ◌≡◌, refl, ap, ◌∙◌, false, Option, none, some, List, [], ◌∷◌, arith, Bool-cases, inl,
  inr, str_eq, eq_iff, eq_refl, if◌then◌else◌,
}
use nexus_ide.Lock.{Result, returned, threw}
use nexus_ide.RedisCache.{
  Entry, parsed, Json, CacheServer, RedisCache, delete_prefix, expiry, is_expired, full_key,
  remember, set_value, count_miss, found_entry, parsed_result, get_memory, get_value, delete_keys,
  counted, clear, or_default_ttl, store_fetched, cached_or_fetch, get_or_fetch,
}

get-delete_prefix :
    (p k : String) (m : Dict Entry)
    → Dict.get k (delete_prefix p m) ≡ (if starts_with k p then none else Dict.get k m)
unfolding delete_prefix Dict.get
get-delete_prefix p k [] = ground arith
get-delete_prefix p k ((j, e) ∷ m) = elim (Bool-cases (str_eq j k)) [
  | inl same ↦
      ground (arith, same, ap (λ t. starts_with t p) ((eq_iff j k).0 same), get-delete_prefix p k m)
  | inr other ↦ ground (arith, other, get-delete_prefix p k m)
]

module _ {R T : Type 0} (server : CacheServer R) (json : Json T) where
  delete_keys_memory :
      (ks : Result (List String)) (c : RedisCache R)
      → (delete_keys server json ks c).1.in_memory_cache ≡ c.in_memory_cache
  unfolding delete_keys counted
  delete_keys_memory threw c = refl
  delete_keys_memory (returned []) c = refl
  delete_keys_memory (returned (k ∷ ks)) c = go (server.del c.redis (k ∷ ks))
    where
      go : (x : Result ℕ × R) → (counted server json x c).1.in_memory_cache ≡ c.in_memory_cache
      go (returned n, r) = refl
      go (threw, r) = refl

  -- Clearing a cache takes out of the memory of the process exactly the keys that start with its
  -- prefix and a colon, whatever Redis answers; the entries of the other caches stay.
  pub get-clear :
      (c : RedisCache R) (k : String)
      → Dict.get k (clear server json c).in_memory_cache
        ≡ (if starts_with k (full_key server json c "") then none else Dict.get k c.in_memory_cache)
  unfolding clear
  get-clear c k = elim (Bool-cases (server.is_ready c.redis)) [
    | inl up ↦ rw up (
        ap (Dict.get k) (
          delete_keys_memory (server.keys c.redis (full_key server json c "*")) (record c {
            in_memory_cache = delete_prefix (full_key server json c "") c.in_memory_cache;
          }))
        ∙ get-delete_prefix (full_key server json c "") k c.in_memory_cache)
    | inr down ↦ rw down (get-delete_prefix (full_key server json c "") k c.in_memory_cache)
  ]

  -- A value that survives JSON, not expired yet, is found in memory, whatever became of Redis.
  pub get_memory-remember :
      (key : String) (v : T) (ttl now later : ℕ) (c : RedisCache R) (redis : R)
      → json.parse (json.stringify v) ≡ parsed v
      → is_expired (expiry ttl now) later ≡ false
      → (get_memory server json key later
          (record (remember server json key v ttl now c) { redis = redis })).0
        ≡ returned (some v)
  unfolding get_memory remember full_key found_entry parsed_result
  get_memory-remember key v ttl now later c redis ok fresh =
      rw (get-put (full_key server json c key) (full_key server json c key))
        (rw (eq_refl (full_key server json c key)) (rw fresh (rw ok refl)))

  pub set_offline :
      (key : String) (v : T) (ttl now : ℕ) (c : RedisCache R)
      → server.is_ready c.redis ≡ false
      → set_value server json key v ttl now c ≡ remember server json key v ttl now c
  unfolding set_value
  set_offline key v ttl now c down = rw down

  pub get_offline :
      (key : String) (now : ℕ) (c : RedisCache R)
      → server.is_ready c.redis ≡ false
      → get_value server json key now c ≡ get_memory server json key now c
  unfolding get_value
  get_offline key now c down = rw down

  miss_offline :
      (key : String) (now : ℕ) (c : RedisCache R)
      → server.is_ready c.redis ≡ false
      → Dict.get (full_key server json c key) c.in_memory_cache ≡ none
      → get_value server json key now c ≡ (returned none, count_miss server json c)
  unfolding get_memory found_entry
  miss_offline key now c down fresh = get_offline key now c down ∙ rw fresh

  default_ttl_same :
      (ttl : Option ℕ) (c : RedisCache R)
      → or_default_ttl server json ttl (count_miss server json c) ≡ or_default_ttl server json ttl c
  unfolding or_default_ttl
  default_ttl_same none c = refl
  default_ttl_same (some t) c = refl

  cached_wins :
      (key : String) (again : Result T) (ttl : Option ℕ) (now : ℕ) (v : T)
      (x : Result (Option T) × RedisCache R)
      → x.0 ≡ returned (some v)
      → (cached_or_fetch server json key again ttl now x).0 ≡ returned v
  unfolding cached_or_fetch
  cached_wins key again ttl now v (r, c) e = rw e

  -- While Redis is not ready, a value that was not cached is fetched once: until it expires, the next
  -- call gives the same value, whatever its own fetch would have given.
  pub fetch_once :
      (key : String) (v : T) (again : Result T) (ttl ttl_again : Option ℕ) (now later : ℕ)
      (c : RedisCache R)
      → server.is_ready c.redis ≡ false
      → Dict.get (full_key server json c key) c.in_memory_cache ≡ none
      → json.parse (json.stringify v) ≡ parsed v
      → is_expired (expiry (or_default_ttl server json ttl c) now) later ≡ false
      → (get_or_fetch server json key again ttl_again later
          (get_or_fetch server json key (returned v) ttl now c).1).0
        ≡ returned v
  unfolding get_or_fetch cached_or_fetch store_fetched
  fetch_once key v again ttl ttl_again now later c down fresh ok alive =
      let missed : RedisCache R = count_miss server json c in
      let span : ℕ = or_default_ttl server json ttl missed in
      let kept : RedisCache R = remember server json key v span now missed in
      let first : (get_or_fetch server json key (returned v) ttl now c).1 ≡ kept =
        rw (miss_offline key now c down fresh) (set_offline key v span now missed down) in
      rw first (
        cached_wins key again ttl_again later v (get_value server json key later kept) (
          ap (λ x. x.0) (get_offline key later kept (unfold remember in down))
          ∙ (unfold remember in
              get_memory-remember key v span now later missed c.redis ok
                (rw (default_ttl_same ttl c) alive))))
