-- ===== src/Api/Eta/Cache.antt =====
-- EtaService.estimateSeconds (packages/api/src/modules/eta/eta.service.ts): what the cache promises.
use marhaba_delivery_v.Prelude.{
  ℕ, ◌+◌, ◌*◌, ◌<◌, ◌≡◌, refl, sym, subst, ap, true, none, some, arith, nat_eq,
}
use marhaba_delivery_v.Prelude.Rows.{find_first}
use marhaba_delivery_v.Api.World.{GeoPoint}
use marhaba_delivery_v.Api.Eta.{
  EtaConfig, EtaCache, EtaKey, Rounded, eta_key, same_key, same_rounded, get, set, estimate_seconds,
  compute_seconds, serve_cached,
}

abbrev pub at : ℕ → EtaCache → EtaCache
at t s = record s { now = t }

same_rounded_refl : (a : Rounded) → same_rounded a a ≡ true
same_rounded_refl a = ground arith

same_key_refl : (k : EtaKey) → same_key k k ≡ true
same_key_refl k = ground (
  arith,
  same_rounded_refl k.from_lng,
  same_rounded_refl k.from_lat,
  same_rounded_refl k.to_lng,
  same_rounded_refl k.to_lat,
)

-- A value that was stored is read back until its time to live is over.
get-set :
    (k : EtaKey) (seconds ttl t : ℕ) (s : EtaCache)
    → t < s.now + ttl * 1000
    → get k (at t (set k seconds ttl s)) ≡ some seconds
unfolding find_first
get-set k seconds ttl t s early = ground (arith, early, same_key_refl k)

module _ (c other : EtaConfig) (from to : GeoPoint) (s : EtaCache) where
  -- An estimate that was not in the cache is the answer to every later question about the same rounded
  -- points until the time to live is over, whatever Mapbox, or the absence of a token, would then
  -- say; and the cache is left as it is.
  pub estimate_is_kept :
      (from' to' : GeoPoint) (t : ℕ)
      → get (eta_key from to) s ≡ none
      → eta_key from' to' ≡ eta_key from to
      → t < s.now + c.cache_ttl * 1000
      → let (seconds, s') = estimate_seconds c from to s in
        (seconds ≡ compute_seconds c from to)
        × (estimate_seconds other from' to' (at t s') ≡ (seconds, at t s'))
  unfolding estimate_seconds
  estimate_is_kept from' to' t missing same early =
      let seconds = compute_seconds c from to in
      let later = at t (set (eta_key from to) seconds c.cache_ttl s) in
      let held = get-set (eta_key from to) seconds c.cache_ttl t s early in
      let found : get (eta_key from' to') later ≡ some seconds =
        subst (λ k. get k later ≡ some seconds) (sym same) held in
      rw missing (refl, ap (λ o. serve_cached other o from' to' later) found)
