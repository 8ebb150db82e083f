-- ===== src/Client/Replace/Contents.antt =====
-- Which files `writeAtomic` and `SignFile` change.
use codesign.Common.{
  ℕ, ◌≡◌, ◌⊎◌, refl, sym, ap, ◌∙◌, true, ◌&&◌, Option, none, some, arith, Bytes, codes, take, equal,
  equal_iff, equal_self, if◌then◌else◌, inl, inr, Bool-cases,
}
use codesign.Common.Errors.{Error, Result, ok, err, err-ne-ok, is_ok, Result-cases}
use codesign.Common.Store.{
  Store, content, put, discard, rename, content-put, content-remove, content-rename,
}
use codesign.Client.{Config, SignOptions, Attempt, sign}
use codesign.Text.FilePath.{base}
use codesign.Client.Replace.{
  Writing, or_remove, replaced, written_to, created, write_atomic, write_out, read_file,
  output_mode, opened, output_or, sign_file,
}

-- What a path holds behind a call with this result.
abbrev pub After : Bytes → Bytes → Bytes → Store → Store × Result (Unit {0}) → Type 0
After signed output q s p =
    content q p.0 ≡ (if is_ok p.1 && equal output q then some signed else content q s)

module _ (temp signed output q : Bytes) (s : Store) (is_new : content temp s ≡ none) where
  gone : equal temp q ≡ true → content q s ≡ none
  gone same = ap (λ x. content x s) (sym ((equal_iff temp q).0 same)) ∙ is_new

  -- The path is that of the temporary file, which could not be removed.
  abbrev Stays : Result (Unit {0}) → Type 0
  Stays removed = (equal temp q ≡ true) × (e : Error) × (removed ≡ err e)

  dropped :
      (removed : Result (Unit {0})) (b : Bytes)
      → Stays removed ⊎ (content q (discard removed temp (put temp b s)) ≡ content q s)
  dropped (ok _) b = inr (elim (Bool-cases (equal temp q)) [
    | inl same ↦ ground (arith, same, gone same, content-remove temp q (put temp b s))
    | inr other ↦
        ground (arith, other, content-remove temp q (put temp b s), content-put temp q b s)
  ])
  dropped (err e) b = elim (Bool-cases (equal temp q)) [
    | inl same ↦ inl (same, e, refl)
    | inr other ↦ inr (content-put temp q b s ∙ rw other refl)
  ]

  or_remove-After :
      (removed : Result (Unit {0})) (note : Bytes) (x : Result (Unit {0}))
      (next : Store × Result (Unit {0}))
      → Stays removed ⊎ After signed output q s next
      → Stays removed
        ⊎ After signed output q s (or_remove removed temp note x (put temp signed s) next)
  unfolding is_ok
  or_remove-After removed note (err e) next h = dropped removed signed
  or_remove-After removed note (ok _) next h = h

  renamed-After : After signed output q s (rename temp output (put temp signed s), ok tt)
  unfolding is_ok
  renamed-After = content-rename temp output q signed (put temp signed s) there ∙ settled
    where
      there : content temp (put temp signed s) ≡ some signed
      there = content-put temp temp signed s ∙ rw (equal_self temp)

      settled :
          (if equal output q
            then some signed
            else if equal temp q
            then none
            else content q (put temp signed s))
          ≡ (if equal output q then some signed else content q s)
      settled = elim (Bool-cases (equal temp q)) [
        | inl same ↦ ground (arith, same, gone same)
        | inr other ↦ ground (arith, other, content-put temp q signed s)
      ]

  replaced-After :
      (w : Writing)
      → Stays w.removed ⊎ After signed output q s (replaced w temp output (put temp signed s))
  replaced-After w = or_remove-After w.removed (codes "closing signed file") w.closed _ (
      or_remove-After w.removed (codes "setting output permissions")
        (w.chmod (output_mode w.output_stat w.input_stat)) _
        (or_remove-After w.removed (codes "replacing output file") w.renamed _ (inr renamed-After)))

  written_to-After :
      (w : Writing) (x : Option (ℕ × Error))
      → Stays w.removed ⊎ After signed output q s (written_to w temp signed output s x)
  unfolding is_ok
  written_to-After w none = replaced-After w
  written_to-After w (some (n, e)) = dropped w.removed (take n signed)

-- A temporary file is new.
abbrev pub IsNew : Writing → Store → Type 0
IsNew w s = (temp : Bytes) → w.temp ≡ ok temp → content temp s ≡ none

-- The path of the temporary file, whose removal has failed.
abbrev pub Leftover : Writing → Bytes → Type 0
Leftover w q =
    (temp : Bytes) × (w.temp ≡ ok temp) × (equal temp q ≡ true) × (e : Error) × (w.removed ≡ err e)

created-After :
    (w : Writing) (signed output q : Bytes) (s : Store) (x : Result Bytes)
    → w.temp ≡ x
    → IsNew w s
    → Leftover w q ⊎ After signed output q s (created w signed output s x)
unfolding is_ok
created-After w signed output q s (err e) is_x is_new = inr refl
created-After w signed output q s (ok temp) is_temp is_new =
    elim (written_to-After temp signed output q s (is_new temp is_temp) w w.written) [
      | inl (same, e, failed) ↦ inl (temp, is_temp, same, e, failed)
      | inr after ↦ inr after
    ]

-- `writeAtomic` replaces the output by the signed bytes if it succeeds and changes no file if it
-- fails, whichever step fails, and in both cases leaves every other file as it was, the temporary one
-- gone, but for one exception: the temporary file may be left where its removal fails too, whose
-- error is ignored.
pub write_atomic-content :
    (w : Writing) (signed output q : Bytes) (s : Store)
    → IsNew w s
    → Leftover w q
      ⊎ (content q (write_atomic w signed output s).0 ≡ (
          if is_ok (write_atomic w signed output s).1 && equal output q
          then some signed
          else content q s))
unfolding write_atomic
write_atomic-content w signed output q s is_new =
    created-After w signed output q s w.temp refl is_new

-- Where `writeAtomic` succeeds, no file was to be removed.
or_remove_ok :
    (removed : Result (Unit {0})) (temp note : Bytes) (x : Result (Unit {0})) (t : Store)
    (next : Store × Result (Unit {0}))
    → (or_remove removed temp note x t next).1 ≡ ok tt
    → (or_remove removed temp note x t next ≡ next) × (next.1 ≡ ok tt)
or_remove_ok removed temp note (err e) t next h = absurd (err-ne-ok h)
or_remove_ok removed temp note (ok _) t next h = (refl, h)

replaced_ok :
    (w : Writing) (temp output : Bytes) (t : Store)
    → (replaced w temp output t).1 ≡ ok tt
    → (replaced w temp output t).0 ≡ rename temp output t
replaced_ok w temp output t h =
    let one = or_remove_ok w.removed temp (codes "closing signed file") w.closed t _ h in
    let two =
      or_remove_ok w.removed temp (codes "setting output permissions")
        (w.chmod (output_mode w.output_stat w.input_stat)) t _ one.1 in
    let three = or_remove_ok w.removed temp (codes "replacing output file") w.renamed t _ two.1 in
    ap (λ p. p.0) (one.0 ∙ two.0 ∙ three.0)

created_ok :
    (w : Writing) (signed output q : Bytes) (s : Store) (x : Result Bytes)
    → w.temp ≡ x
    → IsNew w s
    → (created w signed output s x).1 ≡ ok tt
    → content q (created w signed output s x).0
      ≡ (if equal output q then some signed else content q s)
unfolding is_ok
created_ok w signed output q s (err e) is_x is_new h = absurd (err-ne-ok h)
created_ok w signed output q s (ok temp) is_temp is_new h = written w.written h
  where
    written :
        (x : Option (ℕ × Error))
        → (written_to w temp signed output s x).1 ≡ ok tt
        → content q (written_to w temp signed output s x).0
          ≡ (if equal output q then some signed else content q s)
    written none k =
        ap (content q) (replaced_ok w temp output (put temp signed s) k)
        ∙ renamed-After temp signed output q s (is_new temp is_temp)
    written (some (n, e)) k = absurd (err-ne-ok k)

write_atomic_ok :
    (w : Writing) (signed output q : Bytes) (s : Store)
    → IsNew w s
    → (write_atomic w signed output s).1 ≡ ok tt
    → content q (write_atomic w signed output s).0
      ≡ (if equal output q then some signed else content q s)
unfolding write_atomic
write_atomic_ok w signed output q s is_new h = created_ok w signed output q s w.temp refl is_new h

-- How `SignFile` ends, with the files behind it.
pub data FileSigned (w : Writing) (input output : Bytes) (s : Store)
    (signing : Bytes → Result Bytes) (p : Store × Result (Unit {0})) : Type 0 where
  replaced_by :
      (file signed : Bytes)
      → content input s ≡ some file
      → signing file ≡ ok signed
      → p.1 ≡ ok tt
      → ((q : Bytes) → content q p.0 ≡ (if equal output q then some signed else content q s))
      → FileSigned w input output s signing p
  untouched :
      (e : Error)
      → p.1 ≡ err e
      → ((q : Bytes) → Leftover w q ⊎ (content q p.0 ≡ content q s))
      → FileSigned w input output s signing p

module _ (config : Config) (web : ℕ → Attempt) (w : Writing) (input output : Bytes)
    (opts : SignOptions) (s : Store) (is_new : IsNew w s) where
  abbrev signing : Bytes → Result Bytes
  signing file = sign config web (base input) file opts

  written-FileSigned :
      (file signed : Bytes)
      → content input s ≡ some file
      → signing file ≡ ok signed
      → FileSigned w input output s signing (write_atomic w signed output s)
  unfolding is_ok
  written-FileSigned file signed there is_signed =
      elim (Result-cases (write_atomic w signed output s).1) [
        | inl (_, done) ↦
            replaced_by file signed there is_signed done
              (λ q. write_atomic_ok w signed output q s is_new done)
        | inr (e, failure) ↦
            untouched e failure
              (λ q. rw failure at (write_atomic-content w signed output q s is_new))
      ]

  write_out-FileSigned :
      (file : Bytes) (x : Result Bytes)
      → content input s ≡ some file
      → signing file ≡ x
      → FileSigned w input output s signing (write_out w output s x)
  write_out-FileSigned file (err e) there is_x = untouched e refl (λ q. inr refl)
  write_out-FileSigned file (ok signed) there is_x = written-FileSigned file signed there is_x

  read_file_ok :
      (reading : Result (Unit {0})) (there : Option Bytes) {file : Bytes}
      → read_file reading there ≡ ok file
      → there ≡ some file
  read_file_ok (err e) there h = cc
  read_file_ok (ok _) none h = cc
  read_file_ok (ok _) (some b) h = cc

  opened-FileSigned :
      (x : Result Bytes)
      → read_file w.reading (content input s) ≡ x
      → FileSigned w input output s signing (opened config web w input output opts s x)
  opened-FileSigned (err e) read = untouched _ refl (λ q. inr refl)
  opened-FileSigned (ok file) read =
      write_out-FileSigned file (signing file) (read_file_ok w.reading (content input s) read) refl

-- Where the temporary file is a new one, `SignFile` either fails and changes no file, but for that
-- temporary file where its removal fails too, or succeeds: then `Sign` has given a file for the
-- input's content under the input's base name, the output (the input itself, if none is named) holds
-- just that file, and every other file is as it was.
pub sign_file-FileSigned :
    (config : Config) (web : ℕ → Attempt) (w : Writing) (input output : Bytes) (opts : SignOptions)
    (s : Store)
    → IsNew w s
    → FileSigned w input
        (output_or input output)
        s
        (λ file. sign config web (base input) file opts)
        (sign_file config web w input output opts s)
unfolding sign_file
sign_file-FileSigned config web w input output opts s is_new =
    opened-FileSigned config web w input (output_or input output) opts s is_new _ refl
