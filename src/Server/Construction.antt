-- ===== src/Server/Construction.antt =====
-- `New` and `Serve` of server/server.go, but for the routes and the timeouts of `net/http`. The
-- temporary directory of the system is an argument.
use codesign.Common.{ℕ, ◌*◌, ◌^◌, Bool, zero, suc, [], ◌∷◌, Option, none, some, Bytes, codes}
use codesign.Common.Errors.{
  Error, Result, ok, err, wrap, annotate, cause, Fault, fault, server_closed,
}
use codesign.Common.Integers.{ℤ, pos, negsuc}
use codesign.Server.Health.{Ttl}

-- `Config`, over what the signer and the verifier are; but for the logger. Times are nanoseconds.
pub record Settings (Backend Verifier : Type 0) : Type 0 where
  pub addr : Bytes
  pub max_body : ℤ
  pub signer : Backend
  pub verifier : Option Verifier
  pub allow_unauthenticated_loopback : Bool
  pub work_dir : Bytes
  pub health_timeout : ℤ
  pub health_cache_ttl : ℤ

abbrev pub default_addr : Bytes
default_addr = codes "127.0.0.1:8750"

abbrev pub default_max_body : ℕ
default_max_body = 100 * 2 ^ 20

abbrev pub health_wait : ℕ
health_wait = 15 * 10 ^ 9

abbrev pub health_cache_ttl : ℕ
health_cache_ttl = 5 * 10 ^ 9

abbrev pub text_or : Bytes → Bytes → Bytes
text_or default [] = default
text_or default (c ∷ text) = c ∷ text

-- Zero stands for the default; a number below zero is kept.
abbrev pub number_or : ℕ → ℤ → ℤ
number_or default (pos zero) = pos default
number_or default (pos (suc n)) = pos (suc n)
number_or default (negsuc n) = negsuc n

unfoldable pub new_server :
    {Backend Verifier : Type 0} → Bytes → Settings Backend Verifier → Settings Backend Verifier
new_server temp_dir config = record config {
  addr = text_or default_addr config.addr;
  max_body = number_or default_max_body config.max_body;
  work_dir = text_or temp_dir config.work_dir;
  health_timeout = number_or health_wait config.health_timeout;
  health_cache_ttl = number_or health_cache_ttl config.health_cache_ttl;
}

-- The lifetime that the health cache reads: none below zero.
abbrev pub ttl_of : ℤ → Ttl
ttl_of (pos n) = some n
ttl_of (negsuc n) = none

-- What ends the service first: the listener, or the context, and then the shutdown.
pub data Ending : Type 0 where
  listener : Error → Ending
  canceled : Result (Unit {0}) → Ending

abbrev pub closed_or : Fault → Error → Result (Unit {0})
closed_or server_closed e = ok tt
closed_or _ e = err (wrap (codes "http server") e)

abbrev pub listener_ended : Error → Error → Result (Unit {0})
listener_ended e (fault f) = closed_or f e
listener_ended e _ = err (wrap (codes "http server") e)

unfoldable pub serve : Ending → Result (Unit {0})
serve (listener e) = listener_ended e (cause e)
serve (canceled shutdown) = annotate (codes "shutting down") shutdown
