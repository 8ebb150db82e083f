-- ===== src/Backends.antt =====
-- backends/backends.go: the staging file, the PIN file and the health probe that both backends
-- share. What the system calls come to is an argument; the external tool is any function on the
-- files.
pub mod Arguments
pub mod Publish
pub mod Listing
pub mod Copying
pub mod Pin
pub mod Osslsigncode
pub mod Jsign
pub mod Contract
pub mod Success
use codesign.Common.{
  ℕ, Bool, true, false, ◌&&◌, ◌||◌, not, List, [], ◌∷◌, ◌++◌, Option, none, some, Bytes, codes,
  take, equal, any, if◌then◌else◌, is_empty,
}
use codesign.Common.Errors.{
  Error, Result, ok, err, wrap, sentinel, no_token_output, no_health_command, fault, not_exist,
}
use codesign.Common.Store.{Store, content, put, remove, discard, rename}
use codesign.Text.Contains.{contains}
use codesign.Text.Space.{trim_space}

-- `Runner`: the files behind the command, and its combined output.
abbrev pub Runner : Type 0
Runner = Bytes → List Bytes → Store → Store × Result Bytes

abbrev pub fallback : Bytes → Bytes → Bytes
fallback [] configured = configured
fallback (c ∷ request) configured = c ∷ request

-- A command is replaced only if it is empty.
abbrev pub or_default : List Bytes → List Bytes → List Bytes
or_default [] default = default
or_default (arg ∷ command) default = arg ∷ command

abbrev pub default_timestamp_url : Bytes
default_timestamp_url = codes "http://ts.ssl.com"

-- A flag with its value, where there is one.
abbrev pub flag : Bytes → Bytes → List Bytes
flag name [] = []
flag name (c ∷ value) = name ∷ (c ∷ value) ∷ []

-- What the system calls around a staging file come to.
pub record StagingFile : Type 0 where
  pub name : Result Bytes
  pub closed : Result (Unit {0})
  pub renamed : Result (Unit {0})
  pub removed : Result (Unit {0})

-- An operation on the files that is told a path.
abbrev pub Writer : Type 0
Writer = Bytes → Store → Store × Result (Unit {0})

-- `os.Rename` of the staging file, which may be missing. If it fails the file is removed, as far as that
-- goes: the error of the removal is ignored, here and below.
abbrev pub moved_to :
    StagingFile
    → Bytes
    → Bytes
    → Store
    → Result (Unit {0})
    → Option Bytes
    → Store × Result (Unit {0})
moved_to f path output s (err e) there =
    (discard f.removed path s, err (wrap (codes "publishing signed file") e))
moved_to f path output s (ok _) none =
    (discard f.removed path s, err (wrap (codes "publishing signed file") (fault not_exist)))
moved_to f path output s (ok _) (some b) = (rename path output s, ok tt)

abbrev pub written_out :
    StagingFile → Bytes → Bytes → Store × Result (Unit {0}) → Store × Result (Unit {0})
written_out f output path (s, err e) = (discard f.removed path s, err e)
written_out f output path (s, ok _) = moved_to f path output s f.renamed (content path s)

abbrev pub after_close :
    StagingFile → Bytes → Writer → Bytes → Store → Result (Unit {0}) → Store × Result (Unit {0})
after_close f output write path s (err e) =
    (discard f.removed path s, err (wrap (codes "closing staging file") e))
after_close f output write path s (ok _) = written_out f output path (write path s)

abbrev pub staged : StagingFile → Bytes → Writer → Store → Result Bytes → Store × Result (Unit {0})
staged f output write s (err e) = (s, err (wrap (codes "creating staging file") e))
staged f output write s (ok path) = after_close f output write path (put path [] s) f.closed

unfoldable pub publish_signed : StagingFile → Bytes → Writer → Store → Store × Result (Unit {0})
publish_signed f output write s = staged f output write s f.name

-- What the system calls around a PIN file come to; a write that fails has written some bytes.
pub record PinFile : Type 0 where
  pub name : Result Bytes
  pub written : Option (ℕ × Error)
  pub closed : Result (Unit {0})
  pub removed : Result (Unit {0})

abbrev pub pin_closed : Writer → Bytes → Store → Result (Unit {0}) → Store × Result (Unit {0})
pin_closed use_path path s (err e) = (s, err (wrap (codes "closing pin file") e))
pin_closed use_path path s (ok _) = use_path path s

abbrev pub pin_written :
    PinFile → Bytes → Writer → Bytes → Store → Option (ℕ × Error) → Store × Result (Unit {0})
pin_written p pin use_path path s none = pin_closed use_path path (put path pin s) p.closed
pin_written p pin use_path path s (some (n, e)) =
    (put path (take n pin) s, err (wrap (codes "writing pin file") e))

-- The deferred `os.Remove` of the PIN file.
abbrev pub without :
    Result (Unit {0}) → Bytes → Store × Result (Unit {0}) → Store × Result (Unit {0})
without removed path (s, result) = (discard removed path s, result)

abbrev pub pin_created : PinFile → Bytes → Writer → Store → Result Bytes → Store × Result (Unit {0})
pin_created p pin use_path s (err e) = (s, err (wrap (codes "creating pin file") e))
pin_created p pin use_path s (ok path) =
    without p.removed path (pin_written p pin use_path path s p.written)

unfoldable pub with_pin_file : PinFile → Bytes → Writer → Store → Store × Result (Unit {0})
with_pin_file p [] use_path s = use_path [] s
with_pin_file p (c ∷ pin) use_path s = pin_created p (c ∷ pin) use_path s p.name

-- "cert" is the argument behind some "--type".
unfoldable pub asks_for_cert : List Bytes → Bool
asks_for_cert [] = false
asks_for_cert (_ ∷ []) = false
asks_for_cert (arg ∷ next ∷ command) =
    let rest = asks_for_cert (next ∷ command) in
    (equal arg (codes "--type") && equal next (codes "cert")) || rest

unfoldable pub lists_certificates : List Bytes → Bool
lists_certificates command =
    any (λ arg. equal arg (codes "--list-objects")) command && asks_for_cert command

abbrev pub cert_object_mark : Bytes
cert_object_mark = codes "Certificate Object"

abbrev pub judge_output : List Bytes → Bytes → Result (Unit {0})
judge_output command output =
    if is_empty (trim_space output)
    then err (sentinel no_token_output)
    else if lists_certificates command && not (contains cert_object_mark output)
    then err (sentinel no_token_output)
    else ok tt

abbrev pub probe_result : List Bytes → Store × Result Bytes → Store × Result (Unit {0})
probe_result command (s, err e) = (s, err e)
probe_result command (s, ok output) = (s, judge_output command output)

unfoldable pub run_health : Runner → List Bytes → Store → Store × Result (Unit {0})
run_health run [] s = (s, err (sentinel no_health_command))
run_health run (command ∷ args) s = probe_result (command ∷ args) (run command args s)

unfoldable pub default_token_health : Bytes → List Bytes
default_token_health [] = []
default_token_health (c ∷ path) =
    codes "pkcs11-tool"
    ∷ codes "--module"
    ∷ (c ∷ path)
    ∷ codes "--list-objects"
    ∷ codes "--type"
    ∷ codes "cert"
    ∷ []

abbrev pub noted : Bytes → Store × Result (Unit {0}) → Store × Result (Unit {0})
noted note (s, ok _) = (s, ok tt)
noted note (s, err e) = (s, err (wrap note e))

abbrev pub after_version :
    Bytes → Runner → List Bytes → Store × Result Bytes → Store × Result (Unit {0})
after_version note run command (s, err e) = (s, err (wrap note e))
after_version note run command (s, ok _) = noted note (run_health run command s)

-- The start of `Sign`: a request or a configuration that is refused reaches no file.
abbrev pub unless_refused :
    Bytes → Store → Result (Unit {0}) → Store × Result (Unit {0}) → Store × Result (Unit {0})
unless_refused note s (err e) next = (s, err (wrap note e))
unless_refused note s (ok _) next = next

-- `Health` of a backend: the tool tells its version, then the probe runs.
unfoldable pub health_of : Bytes → Runner → Bytes → List Bytes → Store → Store × Result (Unit {0})
health_of note run tool command s =
    after_version note run command (run tool (codes "--version" ∷ []) s)
