-- ===== src/Backends/Copying.antt =====
-- `copyFile` of backends/backends.go. The two paths name different files.
use codesign.Common.{
  ℕ, ◌≡◌, refl, sym, equal_self, false, Option, none, some, Bytes, codes, equal, take, ◌++◌, ◌∙◌,
}
use codesign.Common.Errors.{Error, Result, ok, err, wrap, fault, not_exist, err-ne-ok}
use codesign.Common.Store.{Store, content, put, content-put}

-- What the system calls of one copy come to; a copy that fails has written some bytes.
pub record Copying : Type 0 where
  pub opened : Result (Unit {0})
  pub created : Result (Unit {0})
  pub copied : Option (ℕ × Error)
  pub closed : Result (Unit {0})

abbrev pub copy_closed : Bytes → Store → Result (Unit {0}) → Store × Result (Unit {0})
copy_closed to s (err e) = (s, err (wrap (codes "closing " ++ to) e))
copy_closed to s (ok _) = (s, ok tt)

abbrev pub copied_to :
    Copying → Bytes → Bytes → Store → Option (ℕ × Error) → Store × Result (Unit {0})
copied_to c to b s none = copy_closed to (put to b s) c.closed
copied_to c to b s (some (n, e)) = (put to (take n b) s, err (wrap (codes "copying to " ++ to) e))

abbrev pub copy_created :
    Copying → Bytes → Bytes → Store → Result (Unit {0}) → Store × Result (Unit {0})
copy_created c to b s (err e) = (s, err (wrap (codes "creating " ++ to) e))
copy_created c to b s (ok _) = copied_to c to b s c.copied

abbrev pub copy_found : Copying → Bytes → Bytes → Store → Option Bytes → Store × Result (Unit {0})
copy_found c from to s none = (s, err (wrap (codes "opening " ++ from) (fault not_exist)))
copy_found c from to s (some b) = copy_created c to b s c.created

abbrev pub copy_opened :
    Copying → Bytes → Bytes → Store → Result (Unit {0}) → Store × Result (Unit {0})
copy_opened c from to s (err e) = (s, err (wrap (codes "opening " ++ from) e))
copy_opened c from to s (ok _) = copy_found c from to s (content from s)

unfoldable pub copy_file : Copying → Bytes → Bytes → Store → Store × Result (Unit {0})
copy_file c from to s = copy_opened c from to s c.opened

-- A copy changes its destination alone, and where it succeeds the destination holds what the source
-- has held.
abbrev pub Copied : Bytes → Bytes → Store → Store × Result (Unit {0}) → Type 0
Copied from to s p =
    ((q : Bytes) → equal to q ≡ false → content q p.0 ≡ content q s)
    × (p.1 ≡ ok tt → content to p.0 ≡ content from s)

module _ (c : Copying) (from to : Bytes) (s : Store) where
  put-beside : (b q : Bytes) → equal to q ≡ false → content q (put to b s) ≡ content q s
  put-beside b q other = content-put to q b s ∙ rw other refl

  failed-Copied :
      (t : Store) (e : Error)
      → ((q : Bytes) → equal to q ≡ false → content q t ≡ content q s)
      → Copied from to s (t, err e)
  failed-Copied t e keeps = (keeps, λ h. absurd (err-ne-ok h))

  copy_closed-Copied :
      (b : Bytes) (x : Result (Unit {0}))
      → content from s ≡ some b
      → Copied from to s (copy_closed to (put to b s) x)
  copy_closed-Copied b (err e) there = failed-Copied _ _ (put-beside b)
  copy_closed-Copied b (ok _) there =
      (put-beside b, λ _. content-put to to b s ∙ rw (equal_self to) (sym there))

  copied_to-Copied :
      (b : Bytes) (x : Option (ℕ × Error))
      → content from s ≡ some b
      → Copied from to s (copied_to c to b s x)
  copied_to-Copied b none there = copy_closed-Copied b c.closed there
  copied_to-Copied b (some (n, e)) there = failed-Copied _ _ (put-beside (take n b))

  copy_created-Copied :
      (b : Bytes) (x : Result (Unit {0}))
      → content from s ≡ some b
      → Copied from to s (copy_created c to b s x)
  copy_created-Copied b (err e) there = failed-Copied s _ (λ q other. refl)
  copy_created-Copied b (ok _) there = copied_to-Copied b c.copied there

  copy_found-Copied :
      (x : Option Bytes) → content from s ≡ x → Copied from to s (copy_found c from to s x)
  copy_found-Copied none there = failed-Copied s _ (λ q other. refl)
  copy_found-Copied (some b) there = copy_created-Copied b c.created there

  copy_opened-Copied : (x : Result (Unit {0})) → Copied from to s (copy_opened c from to s x)
  copy_opened-Copied (err e) = failed-Copied s _ (λ q other. refl)
  copy_opened-Copied (ok _) = copy_found-Copied (content from s) refl

  pub copy_file-Copied : Copied from to s (copy_file c from to s)
  unfolding copy_file
  copy_file-Copied = copy_opened-Copied c.opened
