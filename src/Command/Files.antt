-- ===== src/Command/Files.antt =====
-- Which files a run over several of them has signed.
use codesign.Common.{
  ℕ, suc, ◌≡◌, ◌⊎◌, refl, sym, ap, ◌∙◌, Bool, true, false, [], ◌∷◌, ◌++◌, List, Option, none, some,
  Bytes, codes, equal, equal_iff, equal_self, any, arith, if◌then◌else◌, inl, inr, Bool-cases,
}
use mathlib.Core.Path.{subst}
use codesign.Common.Errors.{Error, Result, ok, err, err-ne-ok, wrap}
use codesign.Common.Store.{Store, content}
use codesign.Client.{Config, SignOptions, sign}
use codesign.Client.Replace.{sign_file}
use codesign.Client.Replace.Contents.{
  IsNew, Leftover, FileSigned, replaced_by, untouched, sign_file-FileSigned,
}
use codesign.Command.{Flags, Turn, signed_next, sign_all, sign_files}
use codesign.Text.FilePath.{base}

abbrev pub among : Bytes → List Bytes → Bool
among q files = any (equal q) files

abbrev pub Distinct : List Bytes → Type 0
Distinct [] = Unit {0}
Distinct (file ∷ files) = (among file files ≡ false) × Distinct files

-- The run has signed all files, or the first one that is left has failed.
abbrev pub EndsAt : List Bytes → Result (Unit {0}) → Type 0
EndsAt [] result = result ≡ ok tt
EndsAt (file ∷ left) result = (e : Error) × (result ≡ err (wrap (codes "signing " ++ file) e))

-- The file holds what `Sign` has given for what it has held.
abbrev pub SignedOf :
    Config → (ℕ → Turn) → SignOptions → Bytes → Store → Store × Result (Unit {0}) → Type 0
SignedOf config turns opts q s p =
    (k : ℕ) × (file : Bytes) × (new : Bytes) × (content q s ≡ some file)
    × (sign config (turns k).web (base q) file opts ≡ ok new)
    × (content q p.0 ≡ some new)

-- The temporary file of some turn, whose removal has failed.
abbrev pub LeftByTurn : (ℕ → Turn) → Bytes → Type 0
LeftByTurn turns q = (k : ℕ) × Leftover (turns k).writing q

-- How a run over some files ends: the first ones are signed, the others are as they were.
pub record InOrder (config : Config) (turns : ℕ → Turn) (opts : SignOptions) (files : List Bytes)
    (s : Store) (p : Store × Result (Unit {0})) : Type 0 where
  pub done : List Bytes
  pub left : List Bytes
  pub split : files ≡ done ++ left
  pub ending : EndsAt left p.1
  pub signed : (q : Bytes) → among q done ≡ true → SignedOf config turns opts q s p
  pub others :
      (q : Bytes) → among q done ≡ false → LeftByTurn turns q ⊎ (content q p.0 ≡ content q s)

-- No temporary file has the name of a file that is there.
abbrev pub AllNew : (ℕ → Turn) → Store → Type 0
AllNew turns s = (k : ℕ) → IsNew (turns k).writing s

among-append : (q : Bytes) (a b : List Bytes) → among q (a ++ b) ≡ false → among q a ≡ false
unfolding any
among-append q [] b h = refl
among-append q (x ∷ a) b h = ground (arith, h, among-append q a b)

-- What is new stays new when a file that was there is replaced.
replaced-AllNew :
    (turns : ℕ → Turn) (file b signed : Bytes) (s t : Store)
    → content file s ≡ some b
    → ((q : Bytes) → content q t ≡ (if equal file q then some signed else content q s))
    → AllNew turns s
    → AllNew turns t
replaced-AllNew turns file b signed s t there made new k temp named =
    elim (Bool-cases (equal file temp)) [
      | inl same ↦ absurd (
          missing (
            sym (new k temp named)
            ∙ ap (λ x. content x s) (sym ((equal_iff file temp).0 same))
            ∙ there))
      | inr other ↦ made temp ∙ rw other (new k temp named)
    ]
  where
    missing : ¬ (◌≡◌ {A = Option Bytes} none (some b))
    missing h = cc

-- A file that is there is no temporary one.
there-not_left :
    (turns : ℕ → Turn) (file b : Bytes) (s : Store)
    → AllNew turns s
    → content file s ≡ some b
    → ¬ LeftByTurn turns file
there-not_left turns file b s new there (k, (temp, named, same, e, failed)) =
    missing (sym (new k temp named) ∙ ap (λ x. content x s) ((equal_iff temp file).0 same) ∙ there)
  where
    missing : ¬ (◌≡◌ {A = Option Bytes} none (some b))
    missing h = cc

module _ (config : Config) (turns : ℕ → Turn) (opts : SignOptions) where
  -- One file more has been signed in front of the others.
  also_signed :
      (k : ℕ) (file b new : Bytes) (files : List Bytes) (s t : Store)
      (p : Store × Result (Unit {0}))
      → among file files ≡ false
      → content file s ≡ some b
      → sign config (turns k).web (base file) b opts ≡ ok new
      → ((q : Bytes) → content q t ≡ (if equal file q then some new else content q s))
      → AllNew turns t
      → InOrder config turns opts files t p
      → InOrder config turns opts (file ∷ files) s p
  unfolding any
  also_signed k file b new files s t p once there is_signed made all_new rest = record {
    done = file ∷ rest.done;
    left = rest.left;
    split = ap (λ x. file ∷ x) rest.split;
    ending = rest.ending;
    signed = λ q h. elim (Bool-cases (equal file q)) [
      | inl same ↦
          subst (λ x. SignedOf config turns opts x s p) ((equal_iff file q).0 same)
            (k, b, new, there, is_signed, here)
      | inr other ↦
          later q other
            (rest.signed q (ground (arith, h, other, equal_iff file q, equal_iff q file)))
    ];
    others = λ q h. elim (rest.others q (ground (arith, h))) [
      | inl left ↦ inl left
      | inr same ↦ inr (same ∙ made q ∙ rw (distinct q h) refl)
    ];
  }
    where
      distinct : (q : Bytes) → among q (file ∷ rest.done) ≡ false → equal file q ≡ false
      distinct q h = ground (arith, h, equal_iff file q, equal_iff q file)

      here : content file p.0 ≡ some new
      here =
          elim (rest.others file
            (among-append file rest.done rest.left (sym (ap (among file) rest.split) ∙ once))) [
              | inl left ↦ absurd (there-not_left turns file new t all_new holds left)
              | inr same ↦ same ∙ holds
            ]
        where
          holds : content file t ≡ some new
          holds = made file ∙ rw (equal_self file) refl

      later :
          (q : Bytes)
          → equal file q ≡ false
          → SignedOf config turns opts q t p
          → SignedOf config turns opts q s p
      later q other (j, a, c, was, gives, is) =
          (j, a, c, sym (made q ∙ rw other refl) ∙ was, gives, is)

  sign_all-InOrder :
      (k : ℕ) (files : List Bytes) (s : Store)
      → Distinct files
      → AllNew turns s
      → InOrder config turns opts files s (sign_all config turns [] opts k files s)
  unfolding sign_all any
  sign_all-InOrder k [] s distinct new = record {
    done = [];
    left = [];
    split = refl;
    ending = refl;
    signed = λ q h. cc;
    others = λ q h. inr refl;
  }
  sign_all-InOrder k (file ∷ files) s distinct new =
      next (sign_file config (turns k).web (turns k).writing file [] opts s)
        (sign_file-FileSigned config (turns k).web (turns k).writing file [] opts s (new k))
        (λ t. sign_all-InOrder (suc k) files t distinct.1)
    where
      next :
          (r : Store × Result (Unit {0}))
          → FileSigned
              (turns k).writing
              file
              file
              s
              (λ b. sign config (turns k).web (base file) b opts)
              r
          → ((t : Store)
              → AllNew turns t
              → InOrder config turns opts files t (sign_all config turns [] opts (suc k) files t))
          → InOrder config turns opts
              (file ∷ files)
              s
              (signed_next file r (λ t. sign_all config turns [] opts (suc k) files t))
      next (t, err e) (replaced_by b signed there is_signed done made) rest =
          absurd (err-ne-ok done)
      next (t, err e) (untouched _ failure same) rest = record {
        done = [];
        left = file ∷ files;
        split = refl;
        ending = (e, refl);
        signed = λ q h. cc;
        others = λ q h. elim (same q) [ inl left ↦ inl (k, left) | inr is ↦ inr is ];
      }
      next (t, ok _) (untouched _ failure same) rest = absurd (err-ne-ok (sym failure))
      next (t, ok _) (replaced_by b signed there is_signed done made) rest =
          let all_new = replaced-AllNew turns file b signed s t there made new in
          also_signed k file b signed files s t _ distinct.0 there is_signed made all_new
            (rest t all_new)

-- `signFiles` without `-output`, on files with different names: it signs them one by one, in their
-- order, up to the first one that fails. Each file up to there holds what `Sign` has given for the
-- content that it has held before, under its base name; every other file is as it was, the one that
-- fails too, but for a temporary file whose removal has failed; and the result is the failure, which
-- names that file, or success if none is left. No temporary file has the name of a file that is there
-- before the run.
pub sign_files-InOrder :
    (config : Config) (turns : ℕ → Turn) (flags : Flags) (file : Bytes) (files : List Bytes)
    (s : Store)
    → flags.output ≡ []
    → Distinct (file ∷ files)
    → AllNew turns s
    → InOrder config turns
        (record { name = flags.name; url = flags.website })
        (file ∷ files)
        s
        (sign_files config turns flags (file ∷ files) s)
unfolding sign_files
sign_files-InOrder config turns flags file files s in_place distinct new = rw in_place (
    sign_all-InOrder config turns (record { name = flags.name; url = flags.website }) 0
      (file ∷ files) s distinct new)
