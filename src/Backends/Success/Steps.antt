-- ===== src/Backends/Success/Steps.antt =====
-- The steps of a signing that succeed where the calls of the system do.
use codesign.Common.{
  ◌≡◌, ◌≢◌, refl, ◌∙◌, equal, equal_iff, equal_self, arith, false, List, [], ◌∷◌, ◌++◌, none, some,
  Bytes, codes, is_empty,
}
use codesign.Common.Errors.{Result, ok, err, err-ne-ok}
use codesign.Common.Store.{Store, content, put, content-put}
use codesign.Backends.{
  Runner, StagingFile, PinFile, Writer, written_out, publish_signed, with_pin_file,
}
use codesign.Backends.Copying.{Copying, copy_file}
use codesign.Backends.Jsign.{jsign_ran}
use codesign.Backends.Osslsigncode.{ran}
use codesign.Backends.Arguments.{option_of, tail_of, GivesPin}
use codesign.Backends.Pin.{HoldsPin}
use codesign.Backends.Pin.Signed.{present_put}
use codesign.Backends.Publish.{put-beside}
use codesign.Signer.Contract.{Leaves}

-- The calls of the system around each kind of file succeed.
pub record StagingGoes (f : StagingFile) : Type 0 where
  pub path : Bytes
  pub named : f.name ≡ ok path
  pub closes : f.closed ≡ ok tt
  pub moves : f.renamed ≡ ok tt

pub record PinGoes (p : PinFile) : Type 0 where
  pub path : Bytes
  pub named : p.name ≡ ok path
  pub writes : p.written ≡ none
  pub closes : p.closed ≡ ok tt

pub record CopyGoes (c : Copying) : Type 0 where
  pub opens : c.opened ≡ ok tt
  pub creates : c.created ≡ ok tt
  pub copies : c.copied ≡ none
  pub closes : c.closed ≡ ok tt

-- The tool has succeeded and left a file.
pub record Signs (path : Bytes) (r : Store × Result Bytes) : Type 0 where
  pub output : Bytes
  pub succeeds : r.1 ≡ ok output
  pub signed : Bytes
  pub left : content path r.0 ≡ some signed

-- With this PIN, osslsigncode makes the file behind `-out`, which must not be there, of the one behind
-- `-in`, which must, and jsign signs a file that is there in place; both read the PIN from a file.
abbrev pub SignsOut : Runner → Bytes → Type 0
SignsOut run pin =
    (command input path u : Bytes) (options : List Bytes) (s : Store)
    → option_of (codes "-in") (tail_of (options ++ (codes "-out" ∷ path ∷ []))) ≡ some input
    → option_of (codes "-out") (tail_of (options ++ (codes "-out" ∷ path ∷ []))) ≡ some path
    → GivesPin (codes "-readpass") [] pin (tail_of (options ++ (codes "-out" ∷ path ∷ []))) s
    → content input s ≡ some u
    → content path s ≡ none
    → Signs path (run command (options ++ (codes "-out" ∷ path ∷ [])) s)

abbrev pub SignsCopy : Runner → Bytes → Type 0
SignsCopy run pin =
    (command : Bytes) (options : List Bytes) (path b : Bytes) (s : Store)
    → GivesPin (codes "--storepass") (codes "file:") pin (options ++ (path ∷ [])) s
    → content path s ≡ some b
    → Signs path (run command (options ++ (path ∷ [])) s)

pub ran-Leaves : (path : Bytes) (r : Store × Result Bytes) → Signs path r → Leaves path (ran r)
ran-Leaves path (t, ok o) is = record { done = refl; file = is.signed; left = is.left }
ran-Leaves path (t, err e) is = absurd (err-ne-ok is.succeeds)

pub jsign_ran-Leaves :
    (path : Bytes) (r : Store × Result Bytes) → Signs path r → Leaves path (jsign_ran r)
jsign_ran-Leaves path (t, ok o) is = record { done = refl; file = is.signed; left = is.left }
jsign_ran-Leaves path (t, err e) is = absurd (err-ne-ok is.succeeds)

pub not_empty : (b : Bytes) → b ≢ [] → is_empty b ≡ false
not_empty [] named = absurd (named refl)
not_empty (c ∷ b) named = refl

module _ (f : StagingFile) (goes : StagingGoes f) (output : Bytes) where
  written_out_ok :
      (r : Store × Result (Unit {0}))
      → Leaves goes.path r
      → (written_out f output goes.path r).1 ≡ ok tt
  written_out_ok (t, ok _) leaves = rw (goes.moves, leaves.left) refl
  written_out_ok (t, err e) leaves = absurd (err-ne-ok leaves.done)

  pub publish_signed_ok :
      (write : Writer) (s : Store)
      → Leaves goes.path (write goes.path (put goes.path [] s))
      → (publish_signed f output write s).1 ≡ ok tt
  unfolding publish_signed
  publish_signed_ok write s leaves =
      rw (goes.named, goes.closes) (written_out_ok (write goes.path (put goes.path [] s)) leaves)

-- A new empty file is not the PIN file.
pub HoldsPin-put :
    (pin pin_path target : Bytes) (s : Store)
    → HoldsPin pin pin_path target s
    → HoldsPin pin pin_path target (put target [] s)
HoldsPin-put [] pin_path target s holds = holds
HoldsPin-put (c ∷ pin) pin_path target s (there, named, apart) =
    (put-beside target pin_path [] s (elsewhere pin_path target apart) ∙ there, named, apart)
  where
    elsewhere : (a b : Bytes) → equal a b ≡ false → equal b a ≡ false
    elsewhere a b other = ground (arith, other, equal_iff a b, equal_iff b a)

-- What stands in a file before the PIN file is made is there while the operation runs.
module _ (p : PinFile) (goes : PinGoes p) (use_path : Writer) (target : Bytes) (s : Store)
    (named : goes.path ≢ []) (is_new : content goes.path s ≡ none)
    (apart : equal goes.path target ≡ false) where
  pub with_pin_file_ok :
      (pin : Bytes)
      → ((pin_path : Bytes) (t : Store)
          → HoldsPin pin pin_path target t
          → ((q u : Bytes) → content q s ≡ some u → content q t ≡ some u)
          → content target t ≡ content target s
          → (use_path pin_path t).1 ≡ ok tt)
      → (with_pin_file p pin use_path s).1 ≡ ok tt
  unfolding with_pin_file
  with_pin_file_ok [] uses = uses [] s refl (λ q u there. there) refl
  with_pin_file_ok (c ∷ pin) uses =
      rw (goes.named, goes.writes, goes.closes)
        (uses goes.path (put goes.path (c ∷ pin) s)
          (
            content-put goes.path goes.path (c ∷ pin) s ∙ rw (equal_self goes.path) refl,
            named,
            apart,
          )
          (λ q u there. present_put goes.path (c ∷ pin) q u s is_new there)
          (put-beside goes.path target (c ∷ pin) s apart))

pub copy_file_ok :
    (c : Copying) (from to b : Bytes) (s : Store)
    → CopyGoes c
    → content from s ≡ some b
    → (copy_file c from to s).1 ≡ ok tt
unfolding copy_file
copy_file_ok c from to b s goes there =
    rw (goes.opens, there, goes.creates, goes.copies, goes.closes) refl
