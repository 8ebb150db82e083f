-- ===== src/Backends/Publish.antt =====
-- When a signed file appears at its place.
use codesign.Common.{
  ◌≡◌, ◌⊎◌, refl, sym, ap, ◌∙◌, true, false, [], Option, none, some, arith, Bytes, equal, equal_iff,
  if◌then◌else◌, inl, inr, Bool-cases,
}
use mathlib.Core.Path.{subst}
use codesign.Common.Errors.{Error, Result, ok, err}
use codesign.Common.Store.{
  Store, content, put, discard, rename, content-put, content-remove, content-rename,
}
use codesign.Backends.{
  StagingFile, Writer, moved_to, written_out, after_close, staged, publish_signed,
}

-- The path of the staging file, whose removal has failed.
abbrev pub LeftStaging : StagingFile → Bytes → Type 0
LeftStaging f q =
    (path : Bytes) × (f.name ≡ ok path) × (equal path q ≡ true) × (e : Error) × (f.removed ≡ err e)

-- A store that differs from another one at the path alone, and at what is left otherwise.
abbrev pub Beside : (Bytes → Type 0) → Bytes → Store → Store → Type 0
Beside Left path s t = (q : Bytes) → equal path q ≡ false → Left q ⊎ (content q t ≡ content q s)

-- How a publication ends: with the file that the operation has written to a path of its own, or
-- with nothing changed. What the operation leaves behind itself is `Left`.
pub data Published (Left : Bytes → Type 0) (f : StagingFile) (write : Writer) (output : Bytes)
    (s : Store) (p : Store × Result (Unit {0})) : Type 0 where
  appears :
      (path b : Bytes)
      → f.name ≡ ok path
      → content path s ≡ none
      → (write path (put path [] s)).1 ≡ ok tt
      → content path (write path (put path [] s)).0 ≡ some b
      → p.1 ≡ ok tt
      → ((q : Bytes) → Left q ⊎ (content q p.0 ≡ (if equal output q then some b else content q s)))
      → Published Left f write output s p
  withheld :
      (e : Error)
      → p.1 ≡ err e
      → ((q : Bytes) → LeftStaging f q ⊎ (Left q ⊎ (content q p.0 ≡ content q s)))
      → Published Left f write output s p

pub put-beside :
    (path q b : Bytes) (s : Store) → equal path q ≡ false → content q (put path b s) ≡ content q s
put-beside path q b s other = content-put path q b s ∙ rw other refl

module _ (Left : Bytes → Type 0) (path : Bytes) (s : Store) (is_new : content path s ≡ none) where
  gone : (q : Bytes) → equal path q ≡ true → content q s ≡ none
  gone q same = ap (λ x. content x s) (sym ((equal_iff path q).0 same)) ∙ is_new

  discarded :
      (removed : Result (Unit {0})) (t : Store) (q : Bytes)
      → Beside Left path s t
      → ((equal path q ≡ true) × (e : Error) × (removed ≡ err e))
        ⊎ (Left q ⊎ (content q (discard removed path t) ≡ content q s))
  discarded (ok _) t q beside = elim (Bool-cases (equal path q)) [
    | inl same ↦ inr (inr (ground (arith, same, gone q same, content-remove path q t)))
    | inr other ↦ elim (beside q other) [
      | inl left ↦ inr (inl left)
      | inr is ↦ inr (inr (ground (arith, other, is, content-remove path q t)))
    ]
  ]
  discarded (err e) t q beside = elim (Bool-cases (equal path q)) [
    | inl same ↦ inl (same, e, refl)
    | inr other ↦ inr (beside q other)
  ]

  renamed :
      (output b : Bytes) (t : Store) (q : Bytes)
      → Beside Left path s t
      → content path t ≡ some b
      → Left q
        ⊎ (content q (rename path output t) ≡ (if equal output q then some b else content q s))
  renamed output b t q beside there = elim (Bool-cases (equal path q)) [
    | inl same ↦ inr (content-rename path output q b t there ∙ ground (arith, same, gone q same))
    | inr other ↦ elim (beside q other) [
      | inl left ↦ inl left
      | inr is ↦ inr (content-rename path output q b t there ∙ ground (arith, other, is))
    ]
  ]

-- The operation changes that file alone where the publication runs it, but for what it leaves.
abbrev pub ConfinedAt : (Bytes → Type 0) → StagingFile → Writer → Store → Type 0
ConfinedAt Left f write s =
    (path : Bytes) → f.name ≡ ok path → Beside Left path s (write path (put path [] s)).0

module _ (Left : Bytes → Type 0) (f : StagingFile) (output : Bytes) (write : Writer)
    (s : Store) where
  withdrawn :
      (path : Bytes) (e : Error) (t : Store)
      → f.name ≡ ok path
      → content path s ≡ none
      → Beside Left path s t
      → Published Left f write output s (discard f.removed path t, err e)
  withdrawn path e t named is_new beside = withheld e refl λ q.
      elim (discarded Left path s is_new f.removed t q beside) [
        | inl (same, failure, is) ↦ inl (path, named, same, failure, is)
        | inr rest ↦ inr rest
      ]

  module _ (path : Bytes) (named : f.name ≡ ok path) (is_new : content path s ≡ none)
      (stays : Beside Left path s (write path (put path [] s)).0) where
    moved_to-Published :
        (x : Result (Unit {0})) (there : Option Bytes)
        → (write path (put path [] s)).1 ≡ ok tt
        → content path (write path (put path [] s)).0 ≡ there
        → Published Left f write output s
            (moved_to f path output (write path (put path [] s)).0 x there)
    moved_to-Published (err e) there done is_there = withdrawn path _ _ named is_new stays
    moved_to-Published (ok _) none done is_there = withdrawn path _ _ named is_new stays
    moved_to-Published (ok _) (some b) done is_there =
        appears path b named is_new done is_there refl
          (λ q. renamed Left path s is_new output b _ q stays is_there)

    written_out-Published :
        (p : Store × Result (Unit {0}))
        → write path (put path [] s) ≡ p
        → Published Left f write output s (written_out f output path p)
    written_out-Published (t, err e) is_p =
        withdrawn path e t named is_new
          (subst (λ x. Beside Left path s x) (ap (λ x. x.0) is_p) stays)
    written_out-Published (t, ok _) is_p =
        subst
          (λ x.
            Published Left f write output s (moved_to f path output x f.renamed (content path x)))
          (ap (λ x. x.0) is_p) (moved_to-Published f.renamed _ (ap (λ x. x.1) is_p) refl)

    after_close-Published :
        (x : Result (Unit {0}))
        → Published Left f write output s (after_close f output write path (put path [] s) x)
    after_close-Published (err e) =
        withdrawn path _ _ named is_new (λ q other. inr (put-beside path q [] s other))
    after_close-Published (ok _) = written_out-Published (write path (put path [] s)) refl

  staged-Published :
      (x : Result Bytes)
      → f.name ≡ x
      → ConfinedAt Left f write s
      → ((path : Bytes) → f.name ≡ ok path → content path s ≡ none)
      → Published Left f write output s (staged f output write s x)
  staged-Published (err e) named confined is_new = withheld _ refl (λ q. inr (inr refl))
  staged-Published (ok path) named confined is_new =
      after_close-Published path named (is_new path named) (confined path named) f.closed

  -- Where the staging file is a new one and the operation writes to that file alone, but for what it
  -- leaves behind, `publishSigned` either fails, and no file is changed but for that and for a staging
  -- file that could not be removed, or the operation has succeeded: then the output holds what the
  -- operation has left in the staging file, and every other file is as it was.
  pub publish_signed-Published :
      ConfinedAt Left f write s
      → ((path : Bytes) → f.name ≡ ok path → content path s ≡ none)
      → Published Left f write output s (publish_signed f output write s)
  unfolding publish_signed
  publish_signed-Published confined is_new = staged-Published f.name refl confined is_new
