-- ===== src/Server/Semaphore/Exclusion.antt =====
-- How many requests are behind a semaphore at a time.
use codesign.Common.{ℕ, suc, ◌+◌, ◌<◌, ◌≤◌, ◌≡◌, refl, List, ◌∷◌, arith}
use codesign.Server.Semaphore.{
  Select, waiting, refusing, token_places, upload_places, Phase, acquiring, canceled, inside, gone,
  Channel, Event, cancel, acquire_late, refuse, happens, Turns, here, there, Step, arrive, acquire,
  give_up, release, Reachable, start, step, holders,
}

abbrev pub weight : Phase → ℕ
weight acquiring = 0
weight canceled = 0
weight inside = 1
weight gone = 0

holders_cons : (p : Phase) (rs : List Phase) → holders (p ∷ rs) ≡ weight p + holders rs
unfolding holders
holders_cons acquiring rs = omega arith
holders_cons canceled rs = omega arith
holders_cons inside rs = omega arith
holders_cons gone rs = omega arith

pub holders-Turns :
    {from to : Phase} {rs rs' : List Phase}
    → Turns from to rs rs'
    → holders rs' + weight from ≡ holders rs + weight to
holders-Turns {from = from} {to = to} (here rest) =
    omega (arith, holders_cons from rest, holders_cons to rest)
holders-Turns (there p {before = before} {after = after} t) =
    omega (arith, holders-Turns t, holders_cons p before, holders_cons p after)

-- As many requests are inside as values are in the channel, which has room for them.
pub record Balanced (places : ℕ) (c : Channel) : Type 0 where
  pub balance : holders c.requests ≡ c.taken
  pub room : c.taken ≤ places

pub Event-Balanced :
    (select : Select) (places : ℕ) {c d : Channel}
    → Balanced places c
    → Event select c d
    → Balanced places d
Event-Balanced select places b (arrive taken rs) = record {
  balance = omega (arith, holders_cons acquiring rs, b.balance);
  room = b.room;
}
Event-Balanced select places b (cancel taken waits t) = record {
  balance = omega (arith, holders-Turns t, b.balance);
  room = b.room;
}

pub Step-Balanced :
    (select : Select) (places : ℕ) {c d : Channel}
    → Balanced places c
    → Step select places c d
    → Balanced places d
Step-Balanced select places b (acquire taken free t) = record {
  balance = omega (arith, holders-Turns t, b.balance);
  room = omega arith;
}
Step-Balanced select places b (acquire_late taken free t) = record {
  balance = omega (arith, holders-Turns t, b.balance);
  room = omega arith;
}
Step-Balanced select places b (refuse taken refuses full t) = record {
  balance = omega (arith, holders-Turns t, b.balance);
  room = b.room;
}
Step-Balanced select places b (give_up taken t) = record {
  balance = omega (arith, holders-Turns t, b.balance);
  room = b.room;
}
Step-Balanced select places b (release taken t) = record {
  balance = omega (arith, holders-Turns t, b.balance);
  room = omega (arith, b.room);
}

pub Reachable-Balanced :
    (select : Select) (places : ℕ) {c : Channel} → Reachable select places c → Balanced places c
unfolding holders
Reachable-Balanced select places start = record { balance = refl; room = omega arith }
Reachable-Balanced select places (happens r e) =
    Event-Balanced select places (Reachable-Balanced select places r) e
Reachable-Balanced select places (step r s) =
    Step-Balanced select places (Reachable-Balanced select places r) s

places_bound :
    (select : Select) (places : ℕ) (c : Channel)
    → Reachable select places c
    → holders c.requests ≤ places
places_bound select places c r =
    let b = Reachable-Balanced select places r in omega (arith, b.balance, b.room)

-- However requests arrive, wait, are canceled, give up, are refused and leave, at most one of them is
-- behind the send of the token's channel at a time, and at most two are behind that of the uploads.
pub holders_bound :
    (token uploads : Channel)
    → Reachable waiting token_places token
    → Reachable refusing upload_places uploads
    → (holders token.requests ≤ 1) × (holders uploads.requests ≤ 2)
holders_bound token uploads r r' =
    (places_bound waiting token_places token r, places_bound refusing upload_places uploads r')

-- A request waits.
pub data Waits : List Phase → Type 0 where
  first : (rs : List Phase) → Waits (acquiring ∷ rs)
  behind : (p : Phase) {rs : List Phase} → Waits rs → Waits (p ∷ rs)

Waits-Turns : {rs : List Phase} → Waits rs → (rs' : List Phase) × Turns acquiring inside rs rs'
Waits-Turns (first rs) = (inside ∷ rs, here rs)
Waits-Turns (behind p w) = let (rs', t) = Waits-Turns w in (p ∷ rs', there p t)

-- No place is lost: in a reachable state in which fewer requests are inside than the channel has
-- places, one that waits can go in.
pub free-Step :
    (select : Select) (places taken : ℕ) (rs : List Phase)
    → Reachable select places (record { taken = taken; requests = rs })
    → holders rs < places
    → Waits rs
    → (d : Channel) × Step select places (record { taken = taken; requests = rs }) d
      × (holders d.requests ≡ suc (holders rs))
free-Step select places taken rs r free w =
    let (rs', t) = Waits-Turns w in
    let b = Reachable-Balanced select places r in
    (
      record { taken = suc taken; requests = rs' },
      acquire taken (omega (arith, b.balance)) t,
      omega (arith, holders-Turns t),
    )
