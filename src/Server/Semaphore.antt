-- ===== src/Server/Semaphore.antt =====
-- The buffered channels `token` and `uploads` of server/server.go as semaphores. Requests run
-- concurrently: each step is one request's, in any order.
pub mod Exclusion
pub mod Draining
use codesign.Server.Handler.{max_in_flight_uploads}
use codesign.Common.{ℕ, zero, suc, ◌+◌, ◌-◌, ◌<◌, ◌≤◌, ◌≡◌, List, [], ◌∷◌, ◌++◌}

-- How a `select` treats a full channel: `token` waits until the context ends, `uploads` has a
-- `default` and refuses.
pub data Select : Type 0 where
  waiting refusing : Select

abbrev pub token_places : ℕ
token_places = 1

abbrev pub upload_places : ℕ
upload_places = max_in_flight_uploads

-- Where a request stands: before the `select`, there with a context that has ended, behind its send,
-- or gone.
pub data Phase : Type 0 where
  acquiring canceled inside gone : Phase

-- The values in the channel, and every request that has come.
pub record Channel : Type 0 where
  pub taken : ℕ
  pub requests : List Phase

abbrev pub empty_channel : Channel
empty_channel = record { taken = 0; requests = [] }

-- One request's phase is exchanged for another.
pub data Turns (from to : Phase) : List Phase → List Phase → Type 0 where
  here : (rest : List Phase) → Turns from to (from ∷ rest) (to ∷ rest)
  there :
      (p : Phase) {before after : List Phase}
      → Turns from to before after
      → Turns from to (p ∷ before) (p ∷ after)

-- What comes from outside: a request arrives, or the context of one that waits ends.
pub data Event (select : Select) : Channel → Channel → Type 0 where
  arrive :
      (taken : ℕ) (rs : List Phase)
      → Event select
          (record { taken = taken; requests = rs })
          (record { taken = taken; requests = acquiring ∷ rs })
  cancel :
      (taken : ℕ) {rs rs' : List Phase}
      → select ≡ waiting
      → Turns acquiring canceled rs rs'
      → Event select
          (record { taken = taken; requests = rs })
          (record { taken = taken; requests = rs' })

-- A step of the program at a channel with so many places: a send goes through, also one whose context
-- has ended, since `select` is free to take it; a request whose context has ended gives up; one that
-- does not wait is refused, where the channel is full; or a deferred receive gives the place back.
pub data Step (select : Select) (places : ℕ) : Channel → Channel → Type 0 where
  acquire :
      (taken : ℕ) {rs rs' : List Phase}
      → taken < places
      → Turns acquiring inside rs rs'
      → Step select places
          (record { taken = taken; requests = rs })
          (record { taken = suc taken; requests = rs' })
  acquire_late :
      (taken : ℕ) {rs rs' : List Phase}
      → taken < places
      → Turns canceled inside rs rs'
      → Step select places
          (record { taken = taken; requests = rs })
          (record { taken = suc taken; requests = rs' })
  give_up :
      (taken : ℕ) {rs rs' : List Phase}
      → Turns canceled gone rs rs'
      → Step select places
          (record { taken = taken; requests = rs })
          (record { taken = taken; requests = rs' })
  refuse :
      (taken : ℕ) {rs rs' : List Phase}
      → select ≡ refusing
      → places ≤ taken
      → Turns acquiring gone rs rs'
      → Step select places
          (record { taken = taken; requests = rs })
          (record { taken = taken; requests = rs' })
  release :
      (taken : ℕ) {rs rs' : List Phase}
      → Turns inside gone rs rs'
      → Step select places
          (record { taken = suc taken; requests = rs })
          (record { taken = taken; requests = rs' })

pub data Reachable (select : Select) (places : ℕ) : Channel → Type 0 where
  start : Reachable select places empty_channel
  happens :
      {c d : Channel} → Reachable select places c → Event select c d → Reachable select places d
  step :
      {c d : Channel}
      → Reachable select places c
      → Step select places c d
      → Reachable select places d

unfoldable pub holders : List Phase → ℕ
holders [] = 0
holders (inside ∷ rs) = suc (holders rs)
holders (acquiring ∷ rs) = holders rs
holders (canceled ∷ rs) = holders rs
holders (gone ∷ rs) = holders rs
