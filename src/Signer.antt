-- ===== src/Signer.antt =====
-- signer/signer.go and signer/fake.go.
pub mod Contract
pub mod Fake
use codesign.Common.{Bool, Bytes, equal, if◌then◌else◌}
use codesign.Common.Errors.{Result, ok, err, wrap, sentinel, same_path}

pub record Request : Type 0 where
  pub input_path : Bytes
  pub output_path : Bytes
  pub name : Bytes
  pub url : Bytes

-- `Check` of a request that is not nil; whether both paths name one file is the answer of
-- `os.SameFile`.
unfoldable pub check : Bool → Request → Result (Unit {0})
check same_file req =
    if equal req.input_path req.output_path
    then err (wrap req.input_path (sentinel same_path))
    else if same_file
    then err (wrap req.input_path (sentinel same_path))
    else ok tt
