-- ===== src/Server/Semaphore/Draining.antt =====
-- Once no request arrives any more, a semaphore empties.
use codesign.Common.{
  ℕ, zero, suc, ◌+◌, ◌*◌, ◌<◌, ◌≤◌, ◌≡◌, refl, List, [], ◌∷◌, arith, length, ◌⊎◌, inl, inr,
}
use native.Mathlib.Decide.{dec_lt}
use codesign.Server.Semaphore.{
  Select, Phase, acquiring, canceled, inside, gone, Channel, Turns, here, there, Event, arrive,
  cancel, Step, acquire, acquire_late, give_up, refuse, release, Reachable, holders,
}
use codesign.Server.Semaphore.Exclusion.{
  Balanced, holders-Turns, Event-Balanced, Step-Balanced, Reachable-Balanced,
}

-- A number of steps and cancellations, and no arrival.
pub data Run (select : Select) (places : ℕ) : ℕ → Channel → Channel → Type 0 where
  rest : (c : Channel) → Run select places 0 c c
  canceled_first :
      {n : ℕ} {c d e : Channel}
      → Event select c d
      → length c.requests ≡ length d.requests
      → Run select places n d e
      → Run select places (suc n) c e
  onward :
      {n : ℕ} {c d e : Channel}
      → Step select places c d
      → Run select places n d e
      → Run select places (suc n) c e

-- What a request still has to do at most: to be canceled, to go in, and to go.
abbrev pub ahead : Phase → ℕ
ahead acquiring = 3
ahead canceled = 2
ahead inside = 1
ahead gone = 0

abbrev pub work : List Phase → ℕ
work [] = 0
work (p ∷ rs) = ahead p + work rs

work_bound : (rs : List Phase) → work rs ≤ 3 * length rs
work_bound [] = omega arith
work_bound (acquiring ∷ rs) = omega (arith, work_bound rs)
work_bound (canceled ∷ rs) = omega (arith, work_bound rs)
work_bound (inside ∷ rs) = omega (arith, work_bound rs)
work_bound (gone ∷ rs) = omega (arith, work_bound rs)

work-Turns :
    {from to : Phase} {rs rs' : List Phase}
    → Turns from to rs rs'
    → work rs' + ahead from ≡ work rs + ahead to
work-Turns {from = from} {to = to} (here rs) = omega arith
work-Turns (there p t) = omega (arith, work-Turns t)

work-Event :
    (select : Select) {c d : Channel}
    → Event select c d
    → length c.requests ≡ length d.requests
    → work d.requests < work c.requests
work-Event select (arrive taken rs) same = omega (arith, same)
work-Event select (cancel taken waits t) same = omega (arith, work-Turns t)

work-Step :
    (select : Select) (places : ℕ) {c d : Channel}
    → Step select places c d
    → work d.requests < work c.requests
work-Step select places (acquire taken free t) = omega (arith, work-Turns t)
work-Step select places (acquire_late taken free t) = omega (arith, work-Turns t)
work-Step select places (give_up taken t) = omega (arith, work-Turns t)
work-Step select places (refuse taken refuses full t) = omega (arith, work-Turns t)
work-Step select places (release taken t) = omega (arith, work-Turns t)

work-Run :
    (select : Select) (places n : ℕ) {c d : Channel}
    → Run select places n c d
    → n + work d.requests ≤ work c.requests
work-Run select places zero (rest c) = omega arith
work-Run select places (suc n) (canceled_first e same run) =
    omega (arith, work-Event select e same, work-Run select places n run)
work-Run select places (suc n) (onward s run) =
    omega (arith, work-Step select places s, work-Run select places n run)

Run-Balanced :
    (select : Select) (places n : ℕ) {c d : Channel}
    → Balanced places c
    → Run select places n c d
    → Balanced places d
Run-Balanced select places zero b (rest c) = b
Run-Balanced select places (suc n) b (canceled_first e same run) =
    Run-Balanced select places n (Event-Balanced select places b e) run
Run-Balanced select places (suc n) b (onward s run) =
    Run-Balanced select places n (Step-Balanced select places b s) run

-- Every request has gone.
pub data AllGone : List Phase → Type 0 where
  nobody : AllGone []
  one_more : {rs : List Phase} → AllGone rs → AllGone (gone ∷ rs)

-- A request waits, or one has gone in, or all have gone.
data Standing (rs : List Phase) : Type 0 where
  all_gone : AllGone rs → Standing rs
  one_waits : (rs' : List Phase) → Turns acquiring inside rs rs' → Standing rs
  one_canceled : (rs' : List Phase) → Turns canceled gone rs rs' → Standing rs
  one_inside : (rs' : List Phase) → Turns inside gone rs rs' → Standing rs

standing : (rs : List Phase) → Standing rs
standing [] = all_gone nobody
standing (acquiring ∷ rs) = one_waits (inside ∷ rs) (here rs)
standing (canceled ∷ rs) = one_canceled (gone ∷ rs) (here rs)
standing (inside ∷ rs) = one_inside (gone ∷ rs) (here rs)
standing (gone ∷ rs) = elim (standing rs) [
  | all_gone all ↦ all_gone (one_more all)
  | one_waits rs' t ↦ one_waits (gone ∷ rs') (there gone t)
  | one_canceled rs' t ↦ one_canceled (gone ∷ rs') (there gone t)
  | one_inside rs' t ↦ one_inside (gone ∷ rs') (there gone t)
]

-- Where somebody is inside, that request can be found.
holder_found : (rs : List Phase) → 0 < holders rs → (rs' : List Phase) × Turns inside gone rs rs'
unfolding holders
holder_found [] h = absurd (none h)
  where
    none : ¬ (0 < 0)
    none k = omega (arith, k)
holder_found (acquiring ∷ rs) h =
    let (rs', t) = holder_found rs h in (acquiring ∷ rs', there acquiring t)
holder_found (canceled ∷ rs) h =
    let (rs', t) = holder_found rs h in (canceled ∷ rs', there canceled t)
holder_found (inside ∷ rs) h = (gone ∷ rs, here rs)
holder_found (gone ∷ rs) h = let (rs', t) = holder_found rs h in (gone ∷ rs', there gone t)

holders-AllGone : {rs : List Phase} → AllGone rs → holders rs ≡ 0
unfolding holders
holders-AllGone nobody = refl
holders-AllGone (one_more all) = holders-AllGone all

-- A state is empty, or the program has a step in it.
abbrev pub EmptyOrOn : Select → ℕ → Channel → Type 0
EmptyOrOn select places c =
    (AllGone c.requests × (c.taken ≡ 0)) ⊎ ((d : Channel) × Step select places c d)

module _ (select : Select) (places : ℕ) (rs : List Phase) where
  released :
      (taken : ℕ) (rs' : List Phase)
      → Balanced places (record { taken = taken; requests = rs })
      → Turns inside gone rs rs'
      → EmptyOrOn select places (record { taken = taken; requests = rs })
  released zero rs' b t = absurd (nothing_inside (omega (arith, b.balance, holders-Turns t)))
    where
      nothing_inside : ¬ (1 ≤ 0)
      nothing_inside h = omega (arith, h)
  released (suc taken) rs' b t = inr (record { taken = taken; requests = rs' }, release taken t)

  Balanced-EmptyOrOn :
      (taken : ℕ)
      → 0 < places
      → Balanced places (record { taken = taken; requests = rs })
      → Standing rs
      → EmptyOrOn select places (record { taken = taken; requests = rs })
  Balanced-EmptyOrOn taken some b (all_gone all) =
      inl (all, omega (arith, b.balance, holders-AllGone all))
  Balanced-EmptyOrOn taken some b (one_canceled rs' t) =
      inr (record { taken = taken; requests = rs' }, give_up taken t)
  Balanced-EmptyOrOn taken some b (one_inside rs' t) = released taken rs' b t
  Balanced-EmptyOrOn taken some b (one_waits rs' t) = elim (dec_lt taken places) [
    | yes free ↦ inr (record { taken = suc taken; requests = rs' }, acquire taken free t)
    | no full ↦
        let (rs'', leaves) = holder_found rs (omega (arith, b.balance, full, some)) in
        released taken rs'' b leaves
  ]

-- Once no request arrives any more, a semaphore with a place empties in the end, in whatever order the
-- requests go in, are canceled, give up, are refused and leave: from a state that can be reached there
-- are at most three times as many steps and cancellations as requests have come, and behind every
-- run of them either all requests have gone and the channel holds no value, or the program has a
-- step: a request can go in, give up or leave.
pub Run-drains :
    (select : Select) (places n : ℕ) (c d : Channel)
    → 0 < places
    → Reachable select places c
    → Run select places n c d
    → (n ≤ 3 * length c.requests) × EmptyOrOn select places d
Run-drains select places n c d some reachable run = (
  omega (arith, work-Run select places n run, work_bound c.requests),
  Balanced-EmptyOrOn select places d.requests d.taken some
      (Run-Balanced select places n (Reachable-Balanced select places reachable) run)
      (standing d.requests),
)
