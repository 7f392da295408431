-- ===== src/RedisCache.antt =====
-- backend/src/utils/redisCache.ts: a cache in Redis, and in the process while Redis cannot be used.
-- Redis and JSON are parameters; the clock is an argument. The map in memory is shared by all caches
-- of the process, so it stands beside the prefix and the counters of one of them.
pub mod Offline
pub mod Stale
mod Examples
use Prim.Native.Char.{code}
use Prim.Native.String.{◌++◌ as str_append}
use text.Mathlib.Text.{starts_with}
use nexus_ide.Common.Dict
use nexus_ide.Common.Dict.{Dict}
use nexus_ide.Common.{
  ℕ, ◌+◌, ◌*◌, String, Bool, true, false, not, ◌&&◌, Option, none, some, List, [], ◌∷◌, map, ltb,
  ◌==◌, if◌then◌else◌,
}
use nexus_ide.Lock.{Result, returned, threw}

-- `expires_at` is `none` for Infinity.
pub record Entry : Type 0 where
  pub value : String
  pub expires_at : Option ℕ

-- What `JSON.parse` gives: a value, null, or an error.
pub data Parsed {ℓ} (T : Type ℓ) : Type ℓ where
  parsed : T → Parsed T
  null : Parsed T
  malformed : Parsed T

pub record Json (T : Type 0) : Type 0 where
  pub stringify : T → String
  pub parse : String → Parsed T

-- The commands of Redis that the cache uses; each may be rejected.
pub record CacheServer (R : Type 0) : Type 0 where
  pub is_ready : R → Bool
  pub get : R → String → Result (Option String)
  pub setex : R → String → ℕ → String → Bool × R
  pub set : R → String → String → Bool × R
  pub del : R → List String → Result ℕ × R
  pub keys : R → String → Result (List String)

pub record RedisCache (R : Type 0) : Type 0 where
  pub prefix : String
  pub default_ttl : ℕ
  pub hits : ℕ
  pub misses : ℕ
  pub in_memory_cache : Dict Entry
  pub redis : R

-- `pattern.replace('*', '')`: the first star goes.
drop_star : String → String
drop_star String.[] = ""
drop_star (String.◌∷◌ c s) = let rest = drop_star s in if code c == 42 then s else String.◌∷◌ c rest

-- `inMemoryCache.delete(k)` for each key that starts with a prefix.
unfoldable pub delete_prefix : String → Dict Entry → Dict Entry
delete_prefix p [] = []
delete_prefix p ((k, e) ∷ m) =
    let rest = delete_prefix p m in if starts_with k p then rest else (k, e) ∷ rest

unfoldable pub expiry : ℕ → ℕ → Option ℕ
expiry ttl now = if ltb 0 ttl then some (now + ttl * 1000) else none

unfoldable pub is_expired : Option ℕ → ℕ → Bool
is_expired none now = false
is_expired (some t) now = ltb t now

module _ {R T : Type 0} (server : CacheServer R) (json : Json T) where
  unfoldable pub full_key : RedisCache R → String → String
  full_key c key = str_append c.prefix (str_append ":" key)

  unfoldable pub remember : String → T → ℕ → ℕ → RedisCache R → RedisCache R
  unfolding full_key expiry Dict.put
  remember key value ttl now c = record c {
    in_memory_cache =
        Dict.put (full_key c key)
          (record { value = json.stringify value; expires_at = expiry ttl now }) c.in_memory_cache;
  }

  unfoldable pub send_set : String → T → ℕ → RedisCache R → Bool × R
  unfolding full_key
  send_set key value ttl c =
      if ltb 0 ttl
      then server.setex c.redis (full_key c key) ttl (json.stringify value)
      else server.set c.redis (full_key c key) (json.stringify value)

  after_set : String → T → ℕ → ℕ → RedisCache R → Bool × R → RedisCache R
  unfolding remember
  after_set key value ttl now c (true, redis) = record c { redis = redis }
  after_set key value ttl now c (false, redis) =
      remember key value ttl now (record c { redis = redis })

  unfoldable pub set_value : String → T → ℕ → ℕ → RedisCache R → RedisCache R
  unfolding after_set send_set remember
  set_value key value ttl now c =
      if not (server.is_ready c.redis)
      then remember key value ttl now c
      else after_set key value ttl now c (send_set key value ttl c)

  abbrev pub count_miss : RedisCache R → RedisCache R
  count_miss c = record c { misses = c.misses + 1 }

  abbrev pub count_hit : RedisCache R → RedisCache R
  count_hit c = record c { hits = c.hits + 1 }

  -- What the caller gets for a text that was found.
  parsed_result : Parsed T → Result (Option T)
  parsed_result (parsed v) = returned (some v)
  parsed_result null = returned none
  parsed_result malformed = threw

  found_entry : Option Entry → ℕ → RedisCache R → Result (Option T) × RedisCache R
  unfolding is_expired parsed_result
  found_entry none now c = (returned none, count_miss c)
  found_entry (some e) now c =
      if is_expired e.expires_at now
      then (returned none, count_miss c)
      else (parsed_result (json.parse e.value), count_hit c)

  unfoldable pub get_memory : String → ℕ → RedisCache R → Result (Option T) × RedisCache R
  unfolding found_entry full_key Dict.get
  get_memory key now c = found_entry (Dict.get (full_key c key) c.in_memory_cache) now c

  -- A text that does not parse is an error inside the `try`, after the hit was counted.
  reparsed : String → ℕ → Parsed T → RedisCache R → Result (Option T) × RedisCache R
  unfolding get_memory
  reparsed key now (parsed v) c = (returned (some v), c)
  reparsed key now null c = (returned none, c)
  reparsed key now malformed c = get_memory key now c

  redis_answer :
      String → ℕ → Result (Option String) → RedisCache R → Result (Option T) × RedisCache R
  unfolding reparsed get_memory
  redis_answer key now (returned none) c = (returned none, count_miss c)
  redis_answer key now (returned (some s)) c = reparsed key now (json.parse s) (count_hit c)
  redis_answer key now threw c = get_memory key now c

  unfoldable pub get_value : String → ℕ → RedisCache R → Result (Option T) × RedisCache R
  unfolding get_memory redis_answer full_key
  get_value key now c =
      if not (server.is_ready c.redis)
      then get_memory key now c
      else redis_answer key now (server.get c.redis (full_key c key)) c

  deleted_any : Result ℕ × R → RedisCache R → Bool × RedisCache R
  deleted_any (returned n, redis) c = (ltb 0 n, record c { redis = redis })
  deleted_any (threw, redis) c = (false, record c { redis = redis })

  unfoldable pub delete_value : String → RedisCache R → Bool × RedisCache R
  unfolding full_key Dict.delete deleted_any
  delete_value key c =
      let forgotten : RedisCache R = record c {
        in_memory_cache = Dict.delete (full_key c key) c.in_memory_cache;
      } in
      if not (server.is_ready c.redis)
      then (true, forgotten)
      else deleted_any (server.del c.redis (full_key c key ∷ [])) forgotten

  -- The keys of a pattern are asked for, and deleted where there are any.
  counted : Result ℕ × R → RedisCache R → ℕ × RedisCache R
  counted (returned n, redis) c = (n, record c { redis = redis })
  counted (threw, redis) c = (0, record c { redis = redis })

  delete_keys : Result (List String) → RedisCache R → ℕ × RedisCache R
  unfolding counted
  delete_keys threw c = (0, c)
  delete_keys (returned []) c = (0, c)
  delete_keys (returned (k ∷ ks)) c = counted (server.del c.redis (k ∷ ks)) c

  unfoldable pub delete_pattern : String → RedisCache R → ℕ × RedisCache R
  unfolding full_key drop_star delete_prefix delete_keys
  delete_pattern pattern c =
      let forgotten : RedisCache R = record c {
        in_memory_cache = delete_prefix (full_key c (drop_star pattern)) c.in_memory_cache;
      } in
      if not (server.is_ready c.redis)
      then (0, forgotten)
      else delete_keys (server.keys c.redis (full_key c pattern)) forgotten

  unfoldable pub clear : RedisCache R → RedisCache R
  unfolding full_key delete_prefix delete_keys
  clear c =
      let forgotten : RedisCache R = record c {
        in_memory_cache = delete_prefix (full_key c "") c.in_memory_cache;
      } in
      if not (server.is_ready c.redis)
      then forgotten
      else (delete_keys (server.keys c.redis (full_key c "*")) forgotten).1

  -- `ttl ?? defaultTTL`
  unfoldable pub or_default_ttl : Option ℕ → RedisCache R → ℕ
  or_default_ttl none c = c.default_ttl
  or_default_ttl (some t) c = t

  -- The end of `fetchFn()`, and the `set` of a fetched value.
  store_fetched : String → Result T → Option ℕ → ℕ → RedisCache R → Result T × RedisCache R
  unfolding set_value or_default_ttl
  store_fetched key threw ttl now c = (threw, c)
  store_fetched key (returned v) ttl now c =
      (returned v, set_value key v (or_default_ttl ttl c) now c)

  cached_or_fetch :
      String → Result T → Option ℕ → ℕ → Result (Option T) × RedisCache R → Result T × RedisCache R
  unfolding store_fetched
  cached_or_fetch key fetched ttl now (threw, c) = (threw, c)
  cached_or_fetch key fetched ttl now (returned (some v), c) = (returned v, c)
  cached_or_fetch key fetched ttl now (returned none, c) = store_fetched key fetched ttl now c

  unfoldable pub get_or_fetch :
      String → Result T → Option ℕ → ℕ → RedisCache R → Result T × RedisCache R
  unfolding cached_or_fetch get_value
  get_or_fetch key fetched ttl now c = cached_or_fetch key fetched ttl now (get_value key now c)
