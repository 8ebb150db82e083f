-- ===== src/Server/Health.antt =====
-- `handleHealth` of server/server.go and its cache.
pub mod Healthy
pub mod Probes
use codesign.Common.{ℕ, ◌-◌, Bool, [], ◌∷◌, ◌++◌, Option, none, some, codes, ltb, if◌then◌else◌}
use codesign.Common.Errors.{annotate, Result, ok, err}
use codesign.Server.Response.{Response, fresh_response, write_body, http_error}
use codesign.Server.Upload.{Turn, with_token}

-- `healthAt`, which is zero before the first result, and `healthErr`.
pub record HealthCache : Type 0 where
  pub health_at : Option ℕ
  pub health_err : Result (Unit {0})

-- `HealthCacheTTL`, once `New` has replaced zero; `none` is a negative one.
abbrev pub Ttl : Type 0
Ttl = Option ℕ

abbrev pub stored_result : ℕ → ℕ → Option ℕ → Result (Unit {0}) → Option (Result (Unit {0}))
stored_result ttl now none health = none
stored_result ttl now (some at) health = if ltb (now - at) ttl then some health else none

unfoldable pub cached_health : Ttl → ℕ → HealthCache → Option (Result (Unit {0}))
cached_health none now c = none
cached_health (some ttl) now c = stored_result ttl now c.health_at c.health_err

unfoldable pub store_health : Ttl → ℕ → Result (Unit {0}) → HealthCache → HealthCache
store_health none now health c = c
store_health (some _) now health c = record { health_at = some now; health_err = health }

-- What happens in one call: the clock at the two looks at the cache and at the store, the changes
-- that other calls make to the cache meanwhile, the wait for the token, the answer of
-- `Signer.Health`, and whether the context has ended when it comes.
pub record Probe : Type 0 where
  pub at_first : ℕ
  pub turn : Turn
  pub others : HealthCache → HealthCache
  pub at_second : ℕ
  pub health : Result (Unit {0})
  pub expired : Bool
  pub at_stored : ℕ

abbrev pub probed : Ttl → Probe → HealthCache → HealthCache × Result (Unit {0})
probed ttl p c =
    let health = annotate (codes "backend health") p.health in
    (if p.expired then c else store_health ttl p.at_stored health c, health)

abbrev pub answered_by :
    Ttl → Probe → HealthCache → Option (Result (Unit {0})) → HealthCache × Result (Unit {0})
answered_by ttl p c (some health) = (c, health)
answered_by ttl p c none = probed ttl p c

-- What runs under the token: the cache once more, then the backend.
unfoldable pub check_health : Ttl → Probe → HealthCache → HealthCache × Result (Unit {0})
check_health ttl p c = answered_by ttl p c (cached_health ttl p.at_second c)

unfoldable pub write_health : Result (Unit {0}) → Response → Response
write_health (err _) r = http_error (codes "unhealthy") 503 r
write_health (ok _) r = write_body (codes "OK" ++ (b'\n' ∷ [])) r

abbrev pub first_look :
    Ttl → Probe → HealthCache → Option (Result (Unit {0})) → HealthCache × Result (Unit {0})
first_look ttl p c (some health) = (c, health)
first_look ttl p c none = with_token p.turn (check_health ttl p) (p.others c)

unfoldable pub handle_health : Ttl → Probe → HealthCache → HealthCache × Response
handle_health ttl p c =
    let (c', health) = first_look ttl p c (cached_health ttl p.at_first c) in
    (c', write_health health fresh_response)
