-- ===== src/Tests/Channels.antt =====
-- Two requests at the token: one is inside, one waits, and the first gives the place back.
use codesign.Common.{◌*◌, refl, length, suc, ◌<◌, ◌≤◌, ◌≡◌, [], ◌∷◌, arith}
use codesign.Server.Semaphore.{
  waiting, refusing, upload_places, happens, refuse, acquiring, inside, gone, Channel, here, there,
  Step, arrive, acquire, release, Reachable, start, step, holders,
}
use codesign.Server.Semaphore.Draining.{Run, rest, onward, EmptyOrOn, Run-drains}
use codesign.Server.Semaphore.Exclusion.{holders_bound, first, free-Step}

one_inside : Reachable waiting 1 (record { taken = 1; requests = acquiring ∷ inside ∷ [] })
one_inside =
    happens (step (happens start (arrive 0 [])) (acquire 0 (omega arith) (here [])))
      (arrive 1 (inside ∷ []))

-- A third upload is refused.
two_uploads :
    Reachable refusing upload_places (record { taken = 2; requests = gone ∷ inside ∷ inside ∷ [] })
two_uploads =
    step
      (happens
        (step
          (happens (step (happens start (arrive 0 [])) (acquire 0 (omega arith) (here [])))
            (arrive 1 (inside ∷ [])))
          (acquire 1 (omega arith) (here (inside ∷ []))))
        (arrive 2 (inside ∷ inside ∷ [])))
      (refuse 2 refl (omega arith) (here (inside ∷ inside ∷ [])))

holders_bound_example :
    (holders (acquiring ∷ inside ∷ []) ≤ 1) × (holders (gone ∷ inside ∷ inside ∷ []) ≤ 2)
holders_bound_example =
    holders_bound (record { taken = 1; requests = acquiring ∷ inside ∷ [] })
      (record { taken = 2; requests = gone ∷ inside ∷ inside ∷ [] }) one_inside two_uploads

one_waits : Reachable waiting 1 (record { taken = 0; requests = acquiring ∷ gone ∷ [] })
one_waits = step one_inside (release 0 (there acquiring (here [])))

none_inside : holders (acquiring ∷ gone ∷ []) < 1
unfolding holders
none_inside = omega arith

free-Step_example :
    (d : Channel) × Step waiting 1 (record { taken = 0; requests = acquiring ∷ gone ∷ [] }) d
    × (holders d.requests ≡ suc (holders (acquiring ∷ gone ∷ [])))
free-Step_example =
    free-Step waiting 1 0 (acquiring ∷ gone ∷ []) one_waits none_inside (first (gone ∷ []))

-- The one that is inside gives its place back.
leaves :
    Run waiting 1 1
      (record { taken = 1; requests = acquiring ∷ inside ∷ [] })
      (record { taken = 0; requests = acquiring ∷ gone ∷ [] })
leaves = onward (release 0 (there acquiring (here []))) (rest _)

Run-drains_example :
    (1 ≤ 3 * length (acquiring ∷ inside ∷ []))
    × EmptyOrOn waiting 1 (record { taken = 0; requests = acquiring ∷ gone ∷ [] })
Run-drains_example =
    Run-drains waiting 1 1 (record { taken = 1; requests = acquiring ∷ inside ∷ [] })
      (record { taken = 0; requests = acquiring ∷ gone ∷ [] }) (omega arith) one_inside leaves
