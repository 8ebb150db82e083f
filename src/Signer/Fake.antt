-- ===== src/Signer/Fake.antt =====
-- signer/fake.go: a signer that copies its input and appends a marker. Its mutex makes each method
-- one step on its state.
pub mod Marked
use codesign.Common.{ℕ, Bool, List, [], ◌∷◌, ◌++◌, Option, none, some, Bytes, codes, take}
use codesign.Common.Errors.{Error, Result, ok, err, wrap, fault, not_exist}
use codesign.Common.Store.{Store, content, put}
use codesign.Signer.{Request, check}

abbrev pub fake_marker : Bytes
fake_marker = b'\n' ∷ (codes "FAKE-AUTHENTICODE-SIGNATURE" ++ (b'\n' ∷ []))

pub record Fake : Type 0 where
  pub sign_err : Option Error
  pub health_err : Option Error
  pub requests : List Request

unfoldable pub set_sign_err : Option Error → Fake → Fake
set_sign_err e f = record f { sign_err = e }

unfoldable pub set_health_err : Option Error → Fake → Fake
set_health_err e f = record f { health_err = e }

-- `Health`.
unfoldable pub health : Fake → Option Error
health f = f.health_err

-- What the system calls of `copyWithMarker` come to; a write that fails has written some bytes.
pub record Marking : Type 0 where
  pub opened : Result (Unit {0})
  pub created : Result (Unit {0})
  pub copied : Option (ℕ × Error)
  pub marked : Option (ℕ × Error)
  pub closed : Result (Unit {0})

abbrev fake_error : Bytes → Error → Result (Unit {0})
fake_error step e = err (wrap (codes "fake signer " ++ step) e)

abbrev pub marker_closed : Store → Result (Unit {0}) → Store × Result (Unit {0})
marker_closed s (err e) = (s, fake_error (codes "closing output") e)
marker_closed s (ok _) = (s, ok tt)

abbrev pub marked_to :
    Marking → Bytes → Bytes → Store → Option (ℕ × Error) → Store × Result (Unit {0})
marked_to m to b s none = marker_closed (put to (b ++ fake_marker) s) m.closed
marked_to m to b s (some (n, e)) =
    (put to (b ++ take n fake_marker) s, fake_error (codes "writing marker") e)

abbrev pub body_copied :
    Marking → Bytes → Bytes → Store → Option (ℕ × Error) → Store × Result (Unit {0})
body_copied m to b s none = marked_to m to b s m.marked
body_copied m to b s (some (n, e)) = (put to (take n b) s, fake_error (codes "copying input") e)

abbrev pub marker_created :
    Marking → Bytes → Bytes → Store → Result (Unit {0}) → Store × Result (Unit {0})
marker_created m to b s (err e) = (s, fake_error (codes "creating output") e)
marker_created m to b s (ok _) = body_copied m to b s m.copied

abbrev pub marker_found : Marking → Bytes → Store → Option Bytes → Store × Result (Unit {0})
marker_found m to s none = (s, fake_error (codes "reading input") (fault not_exist))
marker_found m to s (some b) = marker_created m to b s m.created

abbrev pub marker_opened :
    Marking → Bytes → Bytes → Store → Result (Unit {0}) → Store × Result (Unit {0})
marker_opened m from to s (err e) = (s, fake_error (codes "reading input") e)
marker_opened m from to s (ok _) = marker_found m to s (content from s)

unfoldable pub copy_with_marker : Marking → Bytes → Bytes → Store → Store × Result (Unit {0})
copy_with_marker m from to s = marker_opened m from to s m.opened

-- The request is recorded already.
abbrev pub unless_set : Option Error → Store → Store × Result (Unit {0}) → Store × Result (Unit {0})
unless_set (some e) s next = (s, err e)
unless_set none s next = next

abbrev pub recorded : Request → Fake → Fake
recorded req f = record f { requests = f.requests ++ (req ∷ []) }

abbrev pub fake_checked :
    Marking → Request → Fake → Store → Result (Unit {0}) → Fake × (Store × Result (Unit {0}))
fake_checked m req f s (err e) = (f, (s, err e))
fake_checked m req f s (ok _) =
    (recorded req f, unless_set f.sign_err s (copy_with_marker m req.input_path req.output_path s))

unfoldable pub fake_sign :
    Bool → Marking → Request → Fake → Store → Fake × (Store × Result (Unit {0}))
fake_sign same_file m req f s = fake_checked m req f s (check same_file req)
