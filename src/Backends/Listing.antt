-- ===== src/Backends/Listing.antt =====
-- When a health probe counts as healthy.
use codesign.Common.{
  ℕ, ◌≡◌, ◌≢◌, refl, sym, ap, ◌∙◌, ◌↔◌, Bool, true, false, ◌&&◌, not, List, [], ◌∷◌, ◌++◌, arith,
  Bytes, codes, equal, equal_iff, if◌then◌else◌, inl, inr, Bool-cases, any, is_empty,
}
use mathlib.Core.Path.{subst}
use codesign.Common.Errors.{ok_injective, Error, Result, ok, err}
use codesign.Common.Store.{Store}
use codesign.Text.Contains.{contains}
use codesign.Backends.{
  Runner, asks_for_cert, lists_certificates, cert_object_mark, judge_output, probe_result,
  run_health, default_token_health,
}
use codesign.Text.Space.{trim_space}

-- "--type" stands right in front of "cert".
pub record AsksForCert (command : List Bytes) : Type 0 where
  pub before : List Bytes
  pub after : List Bytes
  pub split : command ≡ before ++ (codes "--type" ∷ codes "cert" ∷ after)

asks_for_cert-AsksForCert :
    (command : List Bytes) → asks_for_cert command ≡ true → AsksForCert command
unfolding asks_for_cert
asks_for_cert-AsksForCert [] h = cc
asks_for_cert-AsksForCert (_ ∷ []) h = cc
asks_for_cert-AsksForCert (arg ∷ next ∷ command) h =
    elim (Bool-cases (equal arg (codes "--type") && equal next (codes "cert"))) [
      | inl here ↦ record {
        before = [];
        after = command;
        split =
            same ((equal_iff arg (codes "--type")).0 (ground arith))
              ((equal_iff next (codes "cert")).0 (ground arith));
      }
      | inr behind ↦
          let later = asks_for_cert-AsksForCert (next ∷ command) (rw behind at h) in
          record {
            before = arg ∷ later.before;
            after = later.after;
            split = ap (λ x. arg ∷ x) later.split;
          }
    ]
  where
    same :
        arg ≡ codes "--type"
        → next ≡ codes "cert"
        → ◌≡◌ {A = List Bytes} (arg ∷ next ∷ command) (codes "--type" ∷ codes "cert" ∷ command)
    same a b = rw (a, b) refl

asks_for_cert-append :
    (before after : List Bytes)
    → asks_for_cert (before ++ (codes "--type" ∷ codes "cert" ∷ after)) ≡ true
unfolding asks_for_cert equal
asks_for_cert-append [] after = refl
asks_for_cert-append (arg ∷ []) after = ground arith
asks_for_cert-append (arg ∷ next ∷ before) after =
    ground (arith, asks_for_cert-append (next ∷ before) after)

two_guards :
    (a b : Bool) (e f : Error)
    → (◌≡◌ {A = Result (Unit {0})} (if a then err e else if b then err f else ok tt) (ok tt))
      ↔ ((a ≡ false) × (b ≡ false))
two_guards true b e f = (λ h. cc, λ h. cc)
two_guards false true e f = (λ h. cc, λ h. cc)
two_guards false false e f = (λ h. (refl, refl), λ h. refl)

-- Does the command list objects?
abbrev pub lists_objects : List Bytes → Bool
lists_objects command = any (λ arg. equal arg (codes "--list-objects")) command

-- The output of a probe shows what it should.
pub record Shown (command : List Bytes) (output : Bytes) : Type 0 where
  pub not_blank : trim_space output ≢ []
  pub certificate :
      lists_objects command ≡ true → AsksForCert command → contains cert_object_mark output ≡ true

judge_output-Shown :
    (command : List Bytes) (output : Bytes)
    → judge_output command output ≡ ok tt
    → Shown command output
unfolding lists_certificates
judge_output-Shown command output h =
    let (blank, mark) = (two_guards (is_empty (trim_space output)) _ _ _).0 h in
    record {
      not_blank = λ empty. absurd (differ (sym (ap is_empty empty) ∙ blank));
      certificate = λ lists asks.
          let cert = ap asks_for_cert asks.split ∙ asks_for_cert-append asks.before asks.after in
          ground (arith, lists, cert, mark);
    }
  where
    differ : ¬ (◌≡◌ {A = Bool} true false)
    differ k = cc

Shown-judge_output :
    (command : List Bytes) (output : Bytes)
    → Shown command output
    → judge_output command output ≡ ok tt
unfolding lists_certificates
Shown-judge_output command output shown =
    (two_guards (is_empty (trim_space output)) _ _ _).1
      (blank (trim_space output) shown.not_blank, marked)
  where
    blank : (b : Bytes) → b ≢ [] → is_empty b ≡ false
    blank [] h = absurd (h refl)
    blank (c ∷ b) h = refl

    marked :
        (lists_objects command && asks_for_cert command && not (contains cert_object_mark output))
        ≡ false
    marked = elim (Bool-cases (lists_objects command)) [
      | inr none_listed ↦ rw none_listed refl
      | inl lists ↦ elim (Bool-cases (asks_for_cert command)) [
        | inr no_cert ↦ rw (lists, no_cert) refl
        | inl cert ↦
            rw (lists, cert, shown.certificate lists (asks_for_cert-AsksForCert command cert)) refl
      ]
    ]

probe_result_ok :
    (command : List Bytes) (p : Store × Result Bytes)
    → ((probe_result command p).1 ≡ ok tt)
      ↔ ((output : Bytes) × (p.1 ≡ ok output) × Shown command output)
probe_result_ok command (s, err e) = (λ h. cc, λ h. cc (h.1))
probe_result_ok command (s, ok output) = (
  λ h. (output, refl, judge_output-Shown command output h),
  λ h. Shown-judge_output command output (again h.0 h.1 h.2),
)
  where
    again :
        (o : Bytes)
        → ◌≡◌ {A = Result Bytes} (ok output) (ok o)
        → Shown command o
        → Shown command output
    again o same shown = subst (Shown command) (ok_injective (sym same)) shown

-- A probe is healthy exactly if its command succeeds with an output that is not blank and that,
-- where the command lists objects of type cert, shows a certificate.
pub run_health_iff :
    (run : Runner) (command : Bytes) (args : List Bytes) (s : Store)
    → ((run_health run (command ∷ args) s).1 ≡ ok tt)
      ↔ ((output : Bytes) × ((run command args s).1 ≡ ok output) × Shown (command ∷ args) output)
unfolding run_health
run_health_iff run command args s = probe_result_ok (command ∷ args) (run command args s)

-- The default probe of a PKCS#11 module is healthy only if the tool's output shows a certificate.
pub run_health-default_token_health :
    (run : Runner) (c : ℕ) (path : Bytes) (s : Store)
    → (run_health run (default_token_health (c ∷ path)) s).1 ≡ ok tt
    → (output : Bytes) × ((run
          (codes "pkcs11-tool")
          (codes "--module"
            ∷ (c ∷ path)
            ∷ codes "--list-objects"
            ∷ codes "--type"
            ∷ codes "cert"
            ∷ [])
          s).1
        ≡ ok output)
      × (contains cert_object_mark output ≡ true)
unfolding default_token_health any equal
run_health-default_token_health run c path s h =
    let (output, ran, shown) = (run_health_iff run _ _ s).0 h in
    (
      output,
      ran,
      shown.certificate (ground arith) (record {
        before = codes "pkcs11-tool" ∷ codes "--module" ∷ (c ∷ path) ∷ codes "--list-objects" ∷ [];
        after = [];
        split = refl;
      }),
    )
