-- ===== src/Tests/Fakes.antt =====
-- A request to the fake signer where every call of the system succeeds.
use codesign.Common.{◌≡◌, refl, false, ◌++◌, none, some, codes, equal}
use codesign.Common.Errors.{ok}
use codesign.Common.Store.{content, put, remove}
use codesign.Signer.{check}
use codesign.Signer.Fake.{Marking, fake_marker, fake_sign, copy_with_marker}
use codesign.Signer.Fake.Marked.{FakeSigned, fake_sign-FakeSigned}
use codesign.Signerd.Assembly.{new_fake}
use codesign.Tests.Tools.{request, work_files}

abbrev no_failure : Marking
no_failure = record {
  opened = ok tt;
  created = ok tt;
  copied = none;
  marked = none;
  closed = ok tt;
}

output_is_marked :
    content (codes "out") (fake_sign false no_failure request new_fake work_files).1.0
    ≡ some (codes "unsigned" ++ fake_marker)
unfolding fake_sign check copy_with_marker content put remove equal
output_is_marked = refl

fake_sign-FakeSigned_example :
    FakeSigned no_failure request new_fake work_files
      (check false request)
      (fake_sign false no_failure request new_fake work_files)
fake_sign-FakeSigned_example = fake_sign-FakeSigned false no_failure request new_fake work_files
