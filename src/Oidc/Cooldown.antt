-- ===== src/Oidc/Cooldown.antt =====
-- How often the issuer is asked for its keys.
use codesign.Common.{
  ℕ, ◌+◌, ◌-◌, ◌≤◌, ◌≡◌, refl, inl, inr, Bool, true, false, not, ◌&&◌, List, [], ◌∷◌, Option, none,
  some, arith, ltb, if◌then◌else◌, Bool-cases,
}
use codesign.Common.Spacing.{Spaced, Spaced-earlier}
use codesign.Common.Errors.{Result, ok, err}
use codesign.Oidc.Keys.{
  KeySet, Cache, refresh_cooldown, is_recent, cache_fresh, Readings, commit, refresh,
}
use codesign.Oidc.Freshness.{Ordered}

-- One call of `refresh`: its clock readings and what the issuer would answer.
abbrev pub Call : Type 0
Call = Readings × Result KeySet

-- The call reaches `loadKeys`.
pub loads : Readings → Cache → Bool
loads t c =
    not (cache_fresh t.at_fresh c) && not (is_recent refresh_cooldown t.at_cooling c.attempted)

-- The times at which a sequence of calls starts to fetch.
pub starts : List Call → Cache → List ℕ
starts [] c = []
starts ((t, l) ∷ calls) c =
    let more = starts calls (refresh t l c).0 in if loads t c then t.at_cooling ∷ more else more

abbrev pub AllOrdered : List Call → Type 0
AllOrdered [] = Unit {0}
AllOrdered ((t, _) ∷ calls) = Ordered t × AllOrdered calls

Spaced-start :
    (last : Option ℕ) (x : ℕ) (xs : List ℕ)
    → is_recent refresh_cooldown x last ≡ false
    → Spaced refresh_cooldown (some x) xs
    → Spaced refresh_cooldown last (x ∷ xs)
unfolding is_recent
Spaced-start none x xs h s = s
Spaced-start (some a) x xs h s = (behind a x h, s)
  where
    behind : (a x : ℕ) → ltb (x - a) refresh_cooldown ≡ false → a + refresh_cooldown ≤ x
    behind a x h = ground arith

-- A call that fetches records the attempt; any other leaves the cache as it is.
refresh-loads :
    (t : Readings) (l : Result KeySet) (c : Cache)
    → loads t c ≡ true
    → (refresh t l c).0.attempted ≡ some t.at_attempted
unfolding refresh loads commit
refresh-loads t (ok keys) c h = ground arith
refresh-loads t (err e) c h = ground arith

refresh_skips :
    (t : Readings) (l : Result KeySet) (c : Cache) → loads t c ≡ false → (refresh t l c).0 ≡ c
unfolding refresh loads
refresh_skips t l c h = ground arith

loads_rested :
    (t : Readings) (c : Cache)
    → loads t c ≡ true
    → is_recent refresh_cooldown t.at_cooling c.attempted ≡ false
unfolding loads
loads_rested t c h = ground arith

spaced :
    (calls : List Call) (c : Cache)
    → AllOrdered calls
    → Spaced refresh_cooldown c.attempted (starts calls c)
unfolding starts
spaced [] c o = tt
spaced ((t, l) ∷ calls) c (o, os) = elim (Bool-cases (loads t c)) [
  | inl fetches ↦ rw fetches (
      Spaced-start c.attempted t.at_cooling _ (loads_rested t c fetches) (
        Spaced-earlier refresh_cooldown t.at_attempted t.at_cooling _ o.cooling_attempted
          (rw (refresh-loads t l c fetches) at (spaced calls (refresh t l c).0 os))))
  | inr idle ↦ rw (idle, refresh_skips t l c idle) (spaced calls c os)
]

-- A refresh that does not fetch has nothing from the issuer: its result and the cache behind it are
-- the same whatever the issuer would answer.
abbrev pub Unfetched : Type 0
Unfetched =
    (t : Readings) (l l' : Result KeySet) (c : Cache)
    → loads t c ≡ false
    → refresh t l c ≡ refresh t l' c

unfetched : Unfetched
unfolding refresh loads
unfetched t l l' c idle = elim (Bool-cases (cache_fresh t.at_fresh c)) [
  | inl fresh ↦ rw fresh refl
  | inr stale ↦ elim (Bool-cases (is_recent refresh_cooldown t.at_cooling c.attempted)) [
    | inl cooling ↦ rw (stale, cooling) refl
    | inr rested ↦ absurd (fetches (rw (stale, rested) at idle))
  ]
]
  where
    fetches : ¬ (◌≡◌ {A = Bool} true false)
    fetches k = cc

-- In any sequence of refreshes, whatever the issuer answers, the fetches start at least a minute
-- apart, the first of them at least a minute behind the attempt that the cache remembers. A refresh
-- that is not counted as fetching does not depend on the issuer's answer.
pub starts-Spaced :
    (calls : List Call) (c : Cache)
    → AllOrdered calls
    → Spaced refresh_cooldown c.attempted (starts calls c) × Unfetched
starts-Spaced calls c ordered = (spaced calls c ordered, unfetched)
