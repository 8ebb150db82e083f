-- ===== src/Server/Health/Healthy.antt =====
-- When /health says OK.
use codesign.Common.{
  ℕ, ◌-◌, ◌<◌, ◌≡◌, refl, inl, inr, Option, none, some, [], ◌∷◌, ◌++◌, arith, codes, ap, ◌∙◌, ltb,
  Bool-cases,
}
use codesign.Common.Errors.{annotate, Result, ok, err}
use codesign.Server.Health.{
  HealthCache, Ttl, cached_health, stored_result, Probe, answered_by, check_health, write_health,
  first_look, handle_health,
}
use codesign.Server.Response.{Response, fresh_response, write_body, http_error}
use codesign.Server.Upload.{Turn, granted, canceled, granted_late, with_token}

-- The cache holds a result that is younger than the TTL.
pub record Recent (ttl : Ttl) (now : ℕ) (c : HealthCache) (health : Result (Unit {0}))
    : Type 0 where
  pub bound : ℕ
  pub stored : ℕ
  pub enabled : ttl ≡ some bound
  pub there : c.health_at ≡ some stored
  pub young : (now - stored) < bound
  pub same : c.health_err ≡ health

stored_inv :
    (ttl now : ℕ) (at : Option ℕ) (h : Result (Unit {0})) {health : Result (Unit {0})}
    → stored_result ttl now at h ≡ some health
    → (stored : ℕ) × (at ≡ some stored) × ((now - stored) < ttl) × (h ≡ health)
stored_inv ttl now none h e = cc
stored_inv ttl now (some at) h e = elim (Bool-cases (ltb (now - at) ttl)) [
  | inl young ↦ (at, refl, ground arith, cc)
  | inr old ↦ cc
]

cached_health-Recent :
    (ttl : Ttl) (now : ℕ) (c : HealthCache) {health : Result (Unit {0})}
    → cached_health ttl now c ≡ some health
    → Recent ttl now c health
unfolding cached_health
cached_health-Recent none now c e = cc
cached_health-Recent (some ttl) now c e =
    let (stored, there, young, same) = stored_inv ttl now c.health_at c.health_err e in
    record {
      bound = ttl;
      stored = stored;
      enabled = refl;
      there = there;
      young = young;
      same = same;
    }

abbrev pub healthy_reply : Response
healthy_reply = record {
  status = some 200;
  content_length = none;
  body = codes "OK" ++ (b'\n' ∷ []);
}

write_health-healthy :
    (x : Result (Unit {0})) → write_health x fresh_response ≡ healthy_reply → x ≡ ok tt
unfolding write_health write_body http_error
write_health-healthy (ok _) h = refl
write_health-healthy (err e) h = absurd (unequal (ap (λ r. r.status) h))
  where
    unequal : ¬ (◌≡◌ {A = Option ℕ} (some 503) (some 200))
    unequal k = cc

-- Why /health may say OK.
pub data Healthy (ttl : Ttl) (p : Probe) (c : HealthCache) : Type 0 where
  remembered : Recent ttl p.at_first c (ok tt) → Healthy ttl p c
  remembered_under_token :
      p.turn ≡ granted → Recent ttl p.at_second (p.others c) (ok tt) → Healthy ttl p c
  asked : p.turn ≡ granted → p.health ≡ ok tt → Healthy ttl p c

module _ (ttl : Ttl) (p : Probe) (c : HealthCache) where
  answered_ok :
      (x : Option (Result (Unit {0})))
      → p.turn ≡ granted
      → cached_health ttl p.at_second (p.others c) ≡ x
      → (answered_by ttl p (p.others c) x).1 ≡ ok tt
      → Healthy ttl p c
  answered_ok (some health) turn hit h =
      remembered_under_token turn
        (cached_health-Recent ttl p.at_second (p.others c) (hit ∙ ap some h))
  answered_ok none turn miss h = asked turn (annotated p.health h)
    where
      annotated : (x : Result (Unit {0})) → annotate (codes "backend health") x ≡ ok tt → x ≡ ok tt
      annotated (ok _) k = refl
      annotated (err _) k = cc

  turn_ok :
      (t : Turn)
      → p.turn ≡ t
      → (with_token t (check_health ttl p) (p.others c)).1 ≡ ok tt
      → Healthy ttl p c
  unfolding with_token check_health
  turn_ok granted turn h = answered_ok (cached_health ttl p.at_second (p.others c)) turn refl h
  turn_ok (canceled e) turn h = cc
  turn_ok (granted_late e) turn h = cc

  look_ok :
      (x : Option (Result (Unit {0})))
      → cached_health ttl p.at_first c ≡ x
      → (first_look ttl p c x).1 ≡ ok tt
      → Healthy ttl p c
  look_ok (some health) hit h = remembered (cached_health-Recent ttl p.at_first c (hit ∙ ap some h))
  look_ok none miss h = turn_ok p.turn refl h

  -- /health says OK only if a success that is younger than the cache's TTL is remembered, before
  -- the wait for the token or under it, or if the backend has just said so under the token.
  pub handle_health-Healthy : (handle_health ttl p c).1 ≡ healthy_reply → Healthy ttl p c
  unfolding handle_health
  handle_health-Healthy h =
      look_ok (cached_health ttl p.at_first c) refl
        (write_health-healthy (first_look ttl p c (cached_health ttl p.at_first c)).1 h)
