-- ===== src/RedisCache/Stale.antt =====
-- What the map in memory keeps while Redis is used again.
use nexus_ide.Common.{ℕ, String, ◌≡◌, refl, ap, ◌∙◌, Bool, true, false, some}
use nexus_ide.Lock.{returned}
use nexus_ide.RedisCache.{
  parsed, Json, CacheServer, RedisCache, expiry, is_expired, remember, send_set, after_set,
  set_value, get_value, full_key,
}
use nexus_ide.RedisCache.Offline.{set_offline, get_offline, get_memory-remember}

module _ {R T : Type 0} (server : CacheServer R) (json : Json T) where
  set_online :
      (key : String) (v : T) (ttl now : ℕ) (c : RedisCache R)
      → server.is_ready c.redis ≡ true
      → (send_set server json key v ttl c).0 ≡ true
      → set_value server json key v ttl now c
        ≡ record c { redis = (send_set server json key v ttl c).1 }
  unfolding set_value after_set
  set_online key v ttl now c up sent = rw up (go (send_set server json key v ttl c) sent)
    where
      go :
          (x : Bool × R)
          → x.0 ≡ true
          → after_set server json key v ttl now c x ≡ record c { redis = x.1 }
      go (true, r) e = refl
      go (false, r) e = cc

  -- A value that was set while Redis was down is given again when Redis goes down a second time before
  -- it expires, although Redis took a newer value for the key in between.
  pub stale_after_outage :
      (key : String) (older newer : T) (ttl ttl_newer now between later : ℕ) (c : RedisCache R)
      (up down : R)
      → server.is_ready c.redis ≡ false
      → server.is_ready up ≡ true
      → server.is_ready down ≡ false
      → (send_set server json key newer ttl_newer (record c { redis = up })).0 ≡ true
      → json.parse (json.stringify older) ≡ parsed older
      → is_expired (expiry ttl now) later ≡ false
      → (get_value server json key later
          (record (set_value server json key newer ttl_newer between
            (record (set_value server json key older ttl now c) { redis = up })) {
              redis = down;
            })).0
        ≡ returned (some older)
  stale_after_outage key older newer ttl ttl_newer now between later c up down off on off_again sent
        ok alive =
      let kept : RedisCache R = remember server json key older ttl now c in
      rw (set_offline server json key older ttl now c off) (
        rw
          (set_online key newer ttl_newer between (record kept { redis = up }) on
            (unfold send_set full_key remember in sent))
          (ap (λ x. x.0)
              (get_offline server json key later (record kept { redis = down }) off_again)
            ∙ get_memory-remember server json key older ttl now later c down ok alive))
