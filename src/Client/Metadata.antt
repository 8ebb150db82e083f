-- ===== src/Client/Metadata.antt =====
-- Which metadata the client sends, and which replies it takes for a signed file.
use codesign.Common.{
  ℕ, ◌≡◌, refl, sym, ap, ◌∙◌, ◌↔◌, ◌≤◌, ◌≢◌, ◌⊎◌, ◌||◌, [], ◌∷◌, Bool, true, false, not, Option,
  none, some, arith, Bytes, any, ◌==◌, inl, inr, Bool-cases,
}
use codesign.Common.Errors.{err-ne-ok, both_ok, Error, Result, ok, err, ◌>>=◌}
use codesign.Client.{
  SignOptions, Post, Exchange, unsent, replied, Attempt, is_control, valid_header_value,
  header_filename, header_name, header_url, check_header, validate_headers, judge, read_signed,
  once_created, sign_once,
}
use codesign.Text.Runes.{IsAsciiTest, any-runes}

-- A byte is a tab, or it is neither below the space nor the DEL character.
abbrev pub IsPlain : ℕ → Type 0
IsPlain c = (c ≡ 9) ⊎ ((32 ≤ c) × (c ≢ 127))

-- No byte is an ASCII control character other than a tab.
abbrev pub IsPrintable : Bytes → Type 0
IsPrintable [] = Unit {0}
IsPrintable (c ∷ value) = IsPlain c × IsPrintable value

is_control-IsPlain : (c : ℕ) → (is_control c ≡ false) ↔ IsPlain c
is_control-IsPlain c = (λ h. grind arith, λ h. grind arith)

any-IsPrintable : (v : Bytes) → (any is_control v ≡ false) ↔ IsPrintable v
unfolding any
any-IsPrintable [] = (λ h. tt, λ h. refl)
any-IsPrintable (c ∷ v) =
    let first = is_control-IsPlain c in
    let rest = any-IsPrintable v in
    (
      λ h.
          let (one, others) = neither (is_control c) (any is_control v) h in
          (first.0 one, rest.0 others),
      λ h. rw (first.1 h.0) (rest.1 h.1),
    )
  where
    neither : (a b : Bool) → (a || b) ≡ false → (a ≡ false) × (b ≡ false)
    neither a b h = ground arith

is_control-IsAsciiTest : IsAsciiTest is_control
is_control-IsAsciiTest r high = ground arith

valid_header_value-any : (v : Bytes) → valid_header_value v ≡ not (any is_control v)
unfolding valid_header_value
valid_header_value-any v = ap not (any-runes is_control is_control-IsAsciiTest v)

check_header_iff : (name v : Bytes) → (check_header name v ≡ ok tt) ↔ IsPrintable v
check_header_iff name v = elim (Bool-cases (any is_control v)) [
  | inl bad ↦ (
    λ h. absurd (err-ne-ok (rw (valid_header_value-any v, bad) at h)),
    λ k. absurd (differ (sym bad ∙ (any-IsPrintable v).1 k)),
  )
  | inr good ↦ ((λ h. (any-IsPrintable v).0 good), λ k. rw (valid_header_value-any v, good) refl)
]
  where
    differ : ¬ (◌≡◌ {A = Bool} true false)
    differ k = cc

-- The metadata pass exactly if no byte of the file name, the program name or the URL is a control
-- character other than a tab, although the check reads runes.
pub validate_headers_iff :
    (filename : Bytes) (opts : SignOptions)
    → (validate_headers filename opts ≡ ok tt)
      ↔ (IsPrintable filename × IsPrintable opts.name × IsPrintable opts.url)
unfolding validate_headers
validate_headers_iff filename opts =
    let one =
      both_ok (check_header header_filename filename)
        (check_header header_name opts.name >>= λ _. check_header header_url opts.url) in
    let two = both_ok (check_header header_name opts.name) (check_header header_url opts.url) in
    let f = check_header_iff header_filename filename in
    let n = check_header_iff header_name opts.name in
    let u = check_header_iff header_url opts.url in
    (
      λ h. (f.0 (one.0 h).0, n.0 (two.0 (one.0 h).1).0, u.0 (two.0 (one.0 h).1).1),
      λ h. one.1 (f.1 h.0, two.1 (n.1 h.1, u.1 h.2)),
    )

reply_ok :
    (status : ℕ) (line body : Bytes) (broken : Option Error) {file : Bytes}
    → (judge (replied status line body broken)).0 ≡ ok file
    → (status ≡ 200) × ((read_signed body broken).0 ≡ ok file)
unfolding judge
reply_ok status line body broken h = elim (Bool-cases (status == 200)) [
  | inl same ↦ (ground arith, rw same at h)
  | inr other ↦ absurd (err-ne-ok (rw other at h))
]

judge_ok :
    (x : Exchange) {file : Bytes}
    → (judge x).0 ≡ ok file
    → (line : Bytes) × (x ≡ replied 200 line file none)
unfolding judge
judge_ok (unsent e) h = cc
judge_ok (replied status line body none) h =
    let (is_200, read) = reply_ok status line body none h in (line, cc)
judge_ok (replied status line body (some e)) h =
    let (is_200, read) = reply_ok status line body (some e) h in cc

once_created_ok :
    (c : Result (Unit {0})) (x : Exchange) {file : Bytes}
    → (once_created c x).0 ≡ ok file
    → (c ≡ ok tt) × (line : Bytes) × (x ≡ replied 200 line file none)
once_created_ok (err e) x h = cc
once_created_ok (ok _) x h = let p = judge_ok x h in (refl, p.0, p.1)

-- An attempt gives a file exactly if the request could be made and the service replied with status
-- 200 and that file as its body, read to the end.
pub sign_once_iff :
    (post : Post) (a : Attempt) (file : Bytes)
    → ((sign_once post a).0 ≡ ok file)
      ↔ ((a.creating ≡ ok tt) × (line : Bytes) × (a.exchange post ≡ replied 200 line file none))
unfolding sign_once judge
sign_once_iff post a file = (once_created_ok a.creating (a.exchange post), λ h. rw (h.0, h.2) refl)
