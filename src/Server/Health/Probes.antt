-- ===== src/Server/Health/Probes.antt =====
-- How often /health asks the backend. The sections under the token run one after the other.
use codesign.Common.{
  ℕ, ◌-◌, ◌≤◌, ◌≡◌, refl, List, [], ◌∷◌, Option, none, some, arith, Bool, true, false, ltb, inl,
  inr, Bool-cases, if◌then◌else◌,
}
use codesign.Common.Errors.{Result}
use codesign.Common.Spacing.{Spaced, Spaced-earlier}
use codesign.Server.Health.{
  HealthCache, cached_health, stored_result, store_health, Probe, answered_by, check_health,
}

abbrev pub is_miss : Option (Result (Unit {0})) → Bool
is_miss none = true
is_miss (some _) = false

-- A section turns to the backend.
unfoldable pub asked : ℕ → Probe → HealthCache → Bool
asked ttl p c = is_miss (cached_health (some ttl) p.at_second c)

-- The times at which a sequence of sections turns to the backend.
unfoldable pub asks : ℕ → List Probe → HealthCache → List ℕ
asks ttl [] c = []
asks ttl (p ∷ probes) c =
    let more = asks ttl probes (check_health (some ttl) p c).0 in
    if asked ttl p c then p.at_second ∷ more else more

-- The clock does not run backwards, and the answer comes in time.
abbrev pub AllTimely : List Probe → Type 0
AllTimely [] = Unit {0}
AllTimely (p ∷ probes) = (p.at_second ≤ p.at_stored) × (p.expired ≡ false) × AllTimely probes

missed_Spaced :
    (ttl x : ℕ) (at : Option ℕ) (h : Result (Unit {0})) (xs : List ℕ)
    → 1 ≤ ttl
    → is_miss (stored_result ttl x at h) ≡ true
    → Spaced ttl (some x) xs
    → Spaced ttl at (x ∷ xs)
missed_Spaced ttl x none h xs positive miss s = s
missed_Spaced ttl x (some at) h xs positive miss s = elim (Bool-cases (ltb (x - at) ttl)) [
  | inl young ↦ absurd (hit (rw young at miss))
  | inr old ↦ (ground arith, s)
]
  where
    hit : ¬ (◌≡◌ {A = Bool} false true)
    hit k = cc

answered_miss :
    (ttl : ℕ) (p : Probe) (c : HealthCache) (x : Option (Result (Unit {0})))
    → p.expired ≡ false
    → is_miss x ≡ true
    → (answered_by (some ttl) p c x).0.health_at ≡ some p.at_stored
unfolding store_health
answered_miss ttl p c none timely miss = rw timely
answered_miss ttl p c (some h) timely miss = cc

answered_hit :
    (ttl : ℕ) (p : Probe) (c : HealthCache) (x : Option (Result (Unit {0})))
    → is_miss x ≡ false
    → (answered_by (some ttl) p c x).0 ≡ c
answered_hit ttl p c none hit = cc
answered_hit ttl p c (some h) hit = refl

spaced :
    (ttl : ℕ) (probes : List Probe) (c : HealthCache)
    → 1 ≤ ttl
    → AllTimely probes
    → Spaced ttl c.health_at (asks ttl probes c)
unfolding asks asked check_health cached_health
spaced ttl [] c positive timely = tt
spaced ttl (p ∷ probes) c positive (ordered, in_time, later) =
    elim (Bool-cases (is_miss (stored_result ttl p.at_second c.health_at c.health_err))) [
      | inl miss ↦ rw miss (
          missed_Spaced ttl p.at_second c.health_at c.health_err _ positive miss (
            Spaced-earlier ttl p.at_stored p.at_second _ ordered (
              rw
                (answered_miss ttl p c (stored_result ttl p.at_second c.health_at c.health_err)
                  in_time miss)
                at (spaced ttl probes (check_health (some ttl) p c).0 positive later))))
      | inr hit ↦
          rw
            (hit, answered_hit ttl p c (stored_result ttl p.at_second c.health_at c.health_err) hit)
            (spaced ttl probes c positive later)
    ]

answered_alone :
    (ttl : ℕ) (p : Probe) (c : HealthCache) (x : Option (Result (Unit {0})))
    (health : Result (Unit {0}))
    → is_miss x ≡ false
    → answered_by (some ttl) (record p { health = health }) c x ≡ answered_by (some ttl) p c x
answered_alone ttl p c none health hit = cc
answered_alone ttl p c (some h) health hit = refl

-- A section that does not ask the backend has nothing from it: its reply and the cache behind it are
-- the same whatever the backend would answer.
abbrev pub Unasked : ℕ → Type 0
Unasked ttl =
    (p : Probe) (c : HealthCache) (health : Result (Unit {0}))
    → asked ttl p c ≡ false
    → check_health (some ttl) (record p { health = health }) c ≡ check_health (some ttl) p c

all-Unasked : (ttl : ℕ) → Unasked ttl
unfolding asked check_health
all-Unasked ttl p c health hit =
    answered_alone ttl p c (cached_health (some ttl) p.at_second c) health hit

-- With the cache enabled, in any sequence of health checks under the token that are answered in
-- time, the backend is asked at most once per TTL, the first time not before the remembered result
-- has expired. A check that is not counted as asking it does not depend on its answer.
pub asks-Spaced :
    (ttl : ℕ) (probes : List Probe) (c : HealthCache)
    → 1 ≤ ttl
    → AllTimely probes
    → Spaced ttl c.health_at (asks ttl probes c) × Unasked ttl
asks-Spaced ttl probes c positive timely = (spaced ttl probes c positive timely, all-Unasked ttl)
