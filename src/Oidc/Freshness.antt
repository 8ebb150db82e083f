-- ===== src/Oidc/Freshness.antt =====
-- The keys that `key` returns are never older than the cache's time to live.
use codesign.Common.{
  ℕ, ◌+◌, ◌-◌, ◌≤◌, ◌<◌, ◌≡◌, refl, ◌∙◌, ◌⊎◌, inl, inr, true, Option, none, some, arith, Bytes, ltb,
  Bool-cases, Option-cases,
}
use codesign.Common.Errors.{Error, Result, ok, err}
use codesign.Oidc.Keys.{
  PublicKey, KeySet, lookup, Cache, key_cache_ttl, refresh_cooldown, is_recent, cache_fresh,
  Readings, commit, refresh, found, not_refreshed, is_cooldown, Others, reread, key,
}

-- The clock does not run backwards during the call.
pub record Ordered (t : Readings) : Type 0 where
  pub read_fresh : t.at_read ≤ t.at_fresh
  pub fresh_cooling : t.at_fresh ≤ t.at_cooling
  pub cooling_attempted : t.at_cooling ≤ t.at_attempted
  pub attempted_fetched : t.at_attempted ≤ t.at_fetched

-- Refreshes of other calls, each of which starts no earlier than `now`, lead from one cache to the
-- other.
pub data Evolves (now : ℕ) : Cache → Cache → Type 0 where
  here : {c : Cache} → Evolves now c c
  refreshed :
      {c d e : Cache} (t : Readings) (loaded : Result KeySet)
      → Ordered t
      → now ≤ t.at_fresh
      → e ≡ (refresh t loaded c).0
      → Evolves now e d
      → Evolves now c d

-- The keys were fetched less than their time to live before `start`, or later.
pub record Trusted (start : ℕ) (c : Cache) : Type 0 where
  pub when : ℕ
  pub is_when : c.fetched ≡ some when
  pub alive : start < when + key_cache_ttl

fresh-Trusted :
    (now start : ℕ) (c : Cache) → start ≤ now → cache_fresh now c ≡ true → Trusted start c
unfolding cache_fresh
fresh-Trusted now start c h fresh = elim (Option-cases c.fetched) [
  | inl never ↦ cc (rw never at fresh)
  | inr (f, is_f) ↦ record { when = f; is_when = is_f; alive = alive_of f (rw is_f at fresh) }
]
  where
    alive_of : (f : ℕ) → ltb (now - f) key_cache_ttl ≡ true → start < f + key_cache_ttl
    alive_of f k = ground arith

-- A refresh leaves the time of the last fetch as it is, or sets it to a new reading.
refresh-fetched :
    (t : Readings) (loaded : Result KeySet) (c : Cache)
    → ((refresh t loaded c).0.fetched ≡ c.fetched)
      ⊎ ((refresh t loaded c).0.fetched ≡ some t.at_fetched)
unfolding refresh commit
refresh-fetched t (ok keys) c = ground arith
refresh-fetched t (err e) c = ground arith

refresh-Trusted :
    (t : Readings) (loaded : Result KeySet) (c : Cache) (start : ℕ)
    → Ordered t
    → start ≤ t.at_fresh
    → Trusted start c
    → Trusted start (refresh t loaded c).0
refresh-Trusted t loaded c start o h k = elim (refresh-fetched t loaded c) [
  | inl same ↦ record { when = k.when; is_when = same ∙ k.is_when; alive = k.alive }
  | inr anew ↦ record { when = t.at_fetched; is_when = anew; alive = omega arith }
]

Evolves-Trusted :
    {now : ℕ} {c d : Cache} (start : ℕ)
    → Evolves now c d
    → start ≤ now
    → Trusted start c
    → Trusted start d
Evolves-Trusted start here h k = k
Evolves-Trusted start (refreshed {c} t loaded o later e rest) h k =
    Evolves-Trusted start rest h (rw e (refresh-Trusted t loaded c start o (omega arith) k))

-- A refresh that succeeds found a fresh cache or has just fetched the keys.
refresh_ok-Trusted :
    (t : Readings) (loaded : Result KeySet) (c : Cache)
    → Ordered t
    → (refresh t loaded c).1 ≡ ok tt
    → Trusted t.at_read (refresh t loaded c).0
unfolding refresh commit
refresh_ok-Trusted t loaded c o h = elim (Bool-cases (cache_fresh t.at_fresh c)) [
  | inl fresh ↦ rw fresh (fresh-Trusted t.at_fresh t.at_read c o.read_fresh fresh)
  | inr stale ↦ elim (Bool-cases (is_recent refresh_cooldown t.at_cooling c.attempted)) [
    | inl cooling ↦ cc (rw (stale, cooling) at h)
    | inr rested ↦ rw (stale, rested) (committed loaded (rw (stale, rested) at h))
  ]
]
  where
    committed : (l : Result KeySet) → (commit t l c).1 ≡ ok tt → Trusted t.at_read (commit t l c).0
    committed (ok keys) k = record { when = t.at_fetched; is_when = refl; alive = omega arith }
    committed (err e) k = cc

found_ok : (id : Bytes) (o : Option PublicKey) {k : PublicKey} → found id o ≡ ok k → o ≡ some k
found_ok id none h = cc
found_ok id (some j) h = cc

not_refreshed_err :
    (id : Bytes) (o : Option PublicKey) (e : Error) {k : PublicKey}
    → ¬ (not_refreshed id o e ≡ ok k)
not_refreshed_err id (some j) e h = cc
not_refreshed_err id none e h = elim (Bool-cases (is_cooldown e)) [
  | inl cooling ↦ cc (rw cooling at h)
  | inr other ↦ cc (rw other at h)
]

-- The key stands under its id in the current key set, which is to be trusted.
abbrev pub Current : ℕ → Bytes → PublicKey → Cache → Type 0
Current start id k c = Trusted start c × (lookup id c.keys ≡ some k)

reread-Current :
    (id : Bytes) (cached : Option PublicKey) (others : Others) (p : Cache × Result (Unit {0}))
    (start now : ℕ) {k : PublicKey}
    → (p.1 ≡ ok tt → Trusted start p.0)
    → ((c : Cache) → Evolves now c (others.after c))
    → start ≤ now
    → (reread id cached others p).1 ≡ ok k
    → Current start id k (reread id cached others p).0
reread-Current id cached others (c, err e) start now trusts after h r =
    absurd (not_refreshed_err id cached e r)
reread-Current id cached others (c, ok _) start now trusts after h r =
    (Evolves-Trusted start (after c) h (trusts refl), found_ok id _ r)

-- A key that `key` returns stands under its id in the key set that the call leaves behind, and that
-- set was fetched less than ten minutes before the call began, or during it. Other calls may change
-- the cache in any way before the refresh, and by refreshes of their own behind it.
pub key-Current :
    (others : Others) (t : Readings) (loaded : Result KeySet) (id : Bytes) (c : Cache)
    {k : PublicKey}
    → Ordered t
    → ((d : Cache) → Evolves t.at_read d (others.after d))
    → (key others t loaded id c).1 ≡ ok k
    → Current t.at_read id k (key others t loaded id c).0
unfolding key
key-Current others t loaded id c o after h = elim (Bool-cases (cache_fresh t.at_read c)) [
  | inl fresh ↦
      rw fresh
        (fresh-Trusted t.at_read t.at_read c (omega arith) fresh, found_ok id _ (rw fresh at h))
  | inr stale ↦ rw stale (
      reread-Current id (lookup id c.keys) others _ t.at_read t.at_read
        (refresh_ok-Trusted t loaded (others.before c) o) after (omega arith) (rw stale at h))
]

-- A fresh cache decides alone: the call fetches nothing, leaves the cache as it is, and answers by
-- the key set, so that an unknown key id costs no request.
pub key_fresh :
    (others : Others) (t : Readings) (loaded : Result KeySet) (id : Bytes) (c : Cache)
    → cache_fresh t.at_read c ≡ true
    → key others t loaded id c ≡ (c, found id (lookup id c.keys))
unfolding key
key_fresh others t loaded id c fresh = rw fresh
