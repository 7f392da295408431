-- ===== src/RedisCache/Examples.antt =====
-- A cache of texts, over a Redis that is up or down and holds what it is given.
use nexus_ide.Common.Dict
use nexus_ide.Common.Dict.{Dict}
use nexus_ide.Common.{String, ◌≡◌, refl, Bool, true, false, none, some, [], ◌∷◌}
use nexus_ide.Lock.{returned}
use nexus_ide.RedisCache.{
  Entry, parsed, Json, CacheServer, RedisCache, expiry, is_expired, set_value, get_value, send_set,
  delete_pattern,
}
use nexus_ide.RedisCache.Stale.{stale_after_outage}

record Redis : Type 0 where
  up : Bool
  texts : Dict String

abbrev redis_server : CacheServer Redis
redis_server = record {
  is_ready = λ r. r.up;
  get = λ r k. returned (Dict.get k r.texts);
  setex = λ r k ttl v. (true, record r { texts = Dict.put k v r.texts });
  set = λ r k v. (true, record r { texts = Dict.put k v r.texts });
  del = λ r ks. (returned 0, r);
  keys = λ r p. returned [];
}

abbrev text_json : Json String
text_json = record { stringify = λ v. v; parse = λ s. parsed s }

abbrev redis_down : Redis
redis_down = record { up = false; texts = [] }

abbrev redis_up : Redis
redis_up = record { up = true; texts = [] }

abbrev other_entry : Entry
other_entry = record { value = "x"; expires_at = none }

abbrev cache : RedisCache Redis
cache = record {
  prefix = "metadata";
  default_ttl = 300;
  hits = 0;
  misses = 0;
  in_memory_cache = ("workspace:a", other_entry) ∷ ("metadata:b", other_entry) ∷ [];
  redis = redis_down;
}

pattern_deleted :
    (delete_pattern redis_server text_json "b*" cache).1.in_memory_cache
    ≡ ("workspace:a", other_entry) ∷ []
unfolding delete_pattern
pattern_deleted = refl

stale_after_outage_example :
    (get_value redis_server text_json "f" 9000
      (record (set_value redis_server text_json "f" "two" 300 5000
        (record (set_value redis_server text_json "f" "one" 300 1000 cache) { redis = redis_up })) {
          redis = redis_down;
        })).0
    ≡ returned (some "one")
unfolding send_set is_expired expiry
stale_after_outage_example =
    stale_after_outage redis_server text_json "f" "one" "two" 300 300 1000 5000 9000 cache redis_up
      redis_down refl refl refl refl refl refl
