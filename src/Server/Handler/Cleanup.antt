-- ===== src/Server/Handler/Cleanup.antt =====
-- What a sign request leaves behind.
use codesign.Common.{
  ℕ, ◌≡◌, ◌⊎◌, refl, true, none, arith, Bytes, if◌then◌else◌, ltb, inl, inr, Bool-cases, ap, ◌∙◌,
}
use codesign.Common.Errors.{Result, ok, err}
use codesign.Common.Store.{content, is_below}
use codesign.Server.Auth.{Config, Caller, authenticate}
use codesign.Server.Handler.{Daemon, answer, with_slot, let_in, handle_sign, max_in_flight_uploads}
use codesign.Server.Loopback.{Net}
use codesign.Server.Response.{fresh_response}
use codesign.Server.Upload.{Signer, Outcomes, SignRequest, Outcome, sign_upload}
use codesign.Server.Upload.Safety.{LeftBehind, StaysIn, sign_upload-content}
use codesign.Text.Fold.{Tables}

answer_files : (p : Outcome) → (answer p).0 ≡ p.0
answer_files (s, r, ok n) = refl
answer_files (s, r, err e) = refl

-- The directory is empty before the call. (`os.MkdirTemp` makes a new one.)
abbrev pub IsFresh : {S : Type 0} → Bytes → Daemon S → Type 0
IsFresh dir d = (q : Bytes) → is_below dir q ≡ true → content q d.files ≡ none

module _ {S : Type 0} (u : Tables) (sign : Signer) (limit : ℕ) (o : Outcomes) (req : SignRequest)
    (dir : Bytes) (is_dir : o.temp_dir ≡ ok dir) (stays : StaysIn dir sign) where
  with_slot_keeps :
      (d : Daemon S) (q : Bytes)
      → IsFresh dir d
      → ((with_slot u sign limit o req d).0.uploads ≡ d.uploads)
        × (LeftBehind dir o q
            ⊎ (content q (with_slot u sign limit o req d).0.files ≡ content q d.files))
  with_slot_keeps d q is_fresh = elim (Bool-cases (ltb d.uploads max_in_flight_uploads)) [
    | inr full ↦ (rw full, inr (rw full))
    | inl free ↦ (
      rw free (omega arith),
      rw free
          (kept (sign_upload-content u sign limit o req fresh_response d.files dir q is_dir stays)),
    )
  ]
    where
      emptied : (if is_below dir q then none else content q d.files) ≡ content q d.files
      emptied = elim (Bool-cases (is_below dir q)) [
        | inl inside ↦ rw inside (rw (is_fresh q inside))
        | inr outside ↦ rw outside
      ]

      kept :
          LeftBehind dir o q
            ⊎ (content q (sign_upload u sign limit o req fresh_response d.files).0
                ≡ (if is_below dir q then none else content q d.files))
          → LeftBehind dir o q
            ⊎ (content q (answer (sign_upload u sign limit o req fresh_response d.files)).0
                ≡ content q d.files)
      kept (inl left) = inl left
      kept (inr same) = inr (
          ap (content q) (answer_files (sign_upload u sign limit o req fresh_response d.files))
          ∙ same
          ∙ emptied)

  let_in_keeps :
      (d : Daemon S) (q : Bytes) (x : S × Result Bytes)
      → IsFresh dir d
      → ((let_in u sign limit o req d x).0.uploads ≡ d.uploads)
        × (LeftBehind dir o q
            ⊎ (content q (let_in u sign limit o req d x).0.files ≡ content q d.files))
  let_in_keeps d q (keys, err e) is_fresh = (refl, inr refl)
  let_in_keeps d q (keys, ok caller) is_fresh =
      with_slot_keeps (record d { keys = keys }) q is_fresh

-- Whatever comes of a sign request, whose work directory was empty and whose backend keeps to that
-- directory: as many upload slots are taken behind it as before, and every file is as it was, but for
-- those in the work directory that its removal, whose error is ignored, has failed to remove.
pub handle_sign-restores :
    {S : Type 0} (u : Tables) (net : Net) (config : Config S) (sign : Signer) (limit : ℕ)
    (o : Outcomes) (caller : Caller) (req : SignRequest) (d : Daemon S) (dir q : Bytes)
    → o.temp_dir ≡ ok dir
    → StaysIn dir sign
    → IsFresh dir d
    → ((handle_sign u net config sign limit o caller req d).0.uploads ≡ d.uploads)
      × (LeftBehind dir o q
          ⊎ (content q (handle_sign u net config sign limit o caller req d).0.files
              ≡ content q d.files))
unfolding handle_sign
handle_sign-restores u net config sign limit o caller req d dir q is_dir stays is_fresh =
    let_in_keeps u sign limit o req dir is_dir stays d q (authenticate u net config caller d.keys)
      is_fresh
