-- ===== src/Oidc/Keys.antt =====
-- The key cache: `cacheFresh`, `refresh` and `key` of oidc/oidc.go. Times are nanoseconds of a
-- clock that does not run backwards; `none` is the zero time.
use codesign.Common.{
  ℕ, ◌-◌, ◌*◌, ◌^◌, Bool, true, false, List, [], ◌∷◌, Option, none, some, Bytes, ltb, equal,
  if◌then◌else◌,
}
use codesign.Common.Errors.{
  Error, Result, ok, err, sentinel, wrap, cause, cooldown, unknown_key_id, stale_keys,
}

-- An RSA key; the exponent is the bit pattern of a Go `int`.
pub record PublicKey : Type 0 where
  pub modulus : ℕ
  pub exponent : ℕ

abbrev pub KeySet : Type 0
KeySet = List (Bytes × PublicKey)

unfoldable pub lookup : Bytes → KeySet → Option PublicKey
lookup id [] = none
lookup id ((i, k) ∷ ks) = if equal i id then some k else lookup id ks

-- `keys[id] = k`.
unfoldable pub insert : Bytes → PublicKey → KeySet → KeySet
insert id k [] = (id, k) ∷ []
insert id k ((i, j) ∷ ks) = if equal i id then (id, k) ∷ ks else (i, j) ∷ insert id k ks

-- The fields of `Verifier` that change.
pub record Cache : Type 0 where
  pub keys : KeySet
  pub fetched : Option ℕ
  pub attempted : Option ℕ

abbrev pub second : ℕ
second = 10 ^ 9

abbrev pub key_cache_ttl : ℕ
key_cache_ttl = 600 * second

abbrev pub refresh_cooldown : ℕ
refresh_cooldown = 60 * second

-- `!t.IsZero() && time.Since(t) < d`.
unfoldable pub is_recent : ℕ → ℕ → Option ℕ → Bool
is_recent d now none = false
is_recent d now (some t) = ltb (now - t) d

unfoldable pub cache_fresh : ℕ → Cache → Bool
unfolding is_recent
cache_fresh now c = is_recent key_cache_ttl now c.fetched

-- The readings of the clock in one call, in the order in which they are taken.
pub record Readings : Type 0 where
  pub at_read : ℕ  -- in `key`, by the first `cacheFresh`
  pub at_fresh : ℕ  -- in `refresh`, by `cacheFresh`
  pub at_cooling : ℕ  -- in `refresh`, by the cooldown test
  pub at_attempted : ℕ
  pub at_fetched : ℕ

-- The critical section behind the HTTP requests.
unfoldable pub commit : Readings → Result KeySet → Cache → Cache × Result (Unit {0})
commit t (ok keys) c =
    (record c { attempted = some t.at_attempted; keys = keys; fetched = some t.at_fetched }, ok tt)
commit t (err e) c = (record c { attempted = some t.at_attempted }, err e)

-- `refresh`; `loaded` is what `loadKeys` returns if it is called. `refreshMu` is held throughout,
-- so no other refresh stands between its sections.
unfoldable pub refresh : Readings → Result KeySet → Cache → Cache × Result (Unit {0})
unfolding is_recent
refresh t loaded c =
    if cache_fresh t.at_fresh c
    then (c, ok tt)
    else if is_recent refresh_cooldown t.at_cooling c.attempted
    then (c, err (sentinel cooldown))
    else commit t loaded c

-- `errors.Is(err, errCooldown)`.
abbrev pub is_cooldown : Error → Bool
is_cooldown e = elim (cause e) [ sentinel s ↦ elim s [ cooldown ↦ true | _ ↦ false ] | _ ↦ false ]

abbrev unknown_key {ℓ} : {A : Type ℓ} → Bytes → Result A
unknown_key id = err (wrap id (sentinel unknown_key_id))

abbrev pub found : Bytes → Option PublicKey → Result PublicKey
found id none = unknown_key id
found id (some k) = ok k

-- The answer of `key` when `refresh` fails.
abbrev pub not_refreshed : Bytes → Option PublicKey → Error → Result PublicKey
not_refreshed id (some k) e = err (sentinel stale_keys)
not_refreshed id none e = if is_cooldown e then unknown_key id else err e

-- What other calls do to the cache while this one holds no lock: between its first reading and its
-- refresh, and between its refresh and its second reading.
pub record Others : Type 0 where
  pub before : Cache → Cache
  pub after : Cache → Cache

abbrev pub reread :
    Bytes → Option PublicKey → Others → Cache × Result (Unit {0}) → Cache × Result PublicKey
reread id cached others (c, err e) = (c, not_refreshed id cached e)
reread id cached others (c, ok _) = let c' = others.after c in (c', found id (lookup id c'.keys))

-- `key`, with the cache as the call leaves it.
unfoldable pub key : Others → Readings → Result KeySet → Bytes → Cache → Cache × Result PublicKey
key others t loaded id c =
    let cached = lookup id c.keys in
    if cache_fresh t.at_read c
    then (c, found id cached)
    else reread id cached others (refresh t loaded (others.before c))
