-- ===== src/Server/Auth.antt =====
-- `authenticate` of server/server.go, over the `Verifier` interface, whose implementation keeps
-- state (the cached keys of package oidc).
pub mod Gate
pub mod Github
use codesign.Common.{Bool, true, false, ◌&&◌, Option, none, some, Bytes, codes, if◌then◌else◌}
use codesign.Common.Errors.{Error, Result, ok, err, sentinel, wrap, no_token, no_verifier}
use codesign.Server.Headers.{bearer_token}
use codesign.Server.Loopback.{Net, is_loopback}
use codesign.Text.Fold.{Tables}

-- `Verifier`: verifying moves the implementation's state and returns the token's repository claim
-- or an error. (Of the claims the server uses the repository alone.)
pub record Verifier (S : Type 0) : Type 0 where
  pub verify : S → Bytes → S × Result Bytes

pub record Config (S : Type 0) : Type 0 where
  pub allow_unauthenticated_loopback : Bool
  pub verifier : Option (Verifier S)

-- What `authenticate` reads of a request.
pub record Caller : Type 0 where
  pub remote_addr : Bytes
  pub authorization : Bytes

module _ {S : Type 0} where
  abbrev described : S × Result Bytes → S × Result Bytes
  described (s, ok repository) = (s, ok repository)
  described (s, err e) = (s, err (wrap (codes "verifying OIDC token") e))

  abbrev verified : Option (Verifier S) → S → Bytes → S × Result Bytes
  verified none s token = (s, err (sentinel no_verifier))
  verified (some v) s token = described (v.verify s token)

  abbrev with_bearer : Option (Verifier S) → S → Option Bytes → S × Result Bytes
  with_bearer v s none = (s, err (sentinel no_token))
  with_bearer v s (some token) = verified v s token

  unfoldable pub authenticate : Tables → Net → Config S → Caller → S → S × Result Bytes
  authenticate u net config req s =
      if config.allow_unauthenticated_loopback && is_loopback net req.remote_addr
      then (s, ok (codes "loopback"))
      else with_bearer config.verifier s (bearer_token u req.authorization)
