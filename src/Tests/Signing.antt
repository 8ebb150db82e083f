-- ===== src/Tests/Signing.antt =====
-- Sign requests and health checks from end to end, with a backend that writes a fixed file.
use codesign.Common.{
  ℕ, ◌+◌, ◌⊎◌, ◌≡◌, refl, true, false, none, some, [], ◌∷◌, arith, Bytes, codes, length, equal,
  equal_iff, any, if◌then◌else◌,
}
use codesign.Common.Errors.{Error, fault, other, wrap, ok, cause}
use codesign.Common.Spacing.{Spaced}
use codesign.Common.Store.{Store, content, put, remove, rename, is_below, content-put}
use codesign.Server.Auth.{Config, Caller, authenticate}
use codesign.Server.Detect.{file_reader, detect_kind, is_pe, is_msi}
use codesign.Server.Extension.{safe_extension, compatible_ext, sanitized_ext, checked_ext}
use codesign.Server.Handler.{Daemon, handle_sign, reply_sign_error, sign_error_reply}
use codesign.Server.Handler.Cleanup.{IsFresh, handle_sign-restores}
use codesign.Server.Handler.Late.{begun}
use codesign.Server.Handler.Replies.{plain}
use codesign.Server.Headers.{signing_request, sanitize_metadata}
use codesign.Server.Health.{
  HealthCache, Probe, handle_health, cached_health, check_health, store_health, write_health,
}
use codesign.Server.Health.Healthy.{Healthy, healthy_reply, handle_health-Healthy}
use codesign.Server.Health.Probes.{Unasked, asked, asks, asks-Spaced}
use codesign.Server.Loopback.{is_loopback, is_loopback_ip}
use codesign.Server.Response.{fresh_response, write_body, http_error}
use codesign.Server.Upload.{
  Signer, Outcomes, SignRequest, granted, with_token, copy_body, write_signed, in_dir, sign_upload,
}
use codesign.Server.Upload.Safety.{LeftBehind, StaysIn, sign_upload-content}
use codesign.Server.Upload.Served.{Served, sign_upload-Served}
use codesign.Text.FilePath.{base, ext}
use codesign.Text.Fold.{to_lower}
use codesign.Text.Space.{trim_space}
use codesign.Text.Utf8.{runes_skip}
use codesign.Tests.Tables.{plain_tables, tiny_net}
use codesign.Tests.Uploads.{tiny_pe}
use mathlib.Core.List.{flat_map}

abbrev pub signed_file : Bytes
signed_file = codes "signed"

abbrev pub write_fixed : Signer
write_fixed request s = (put request.output_path signed_file s, ok tt)

abbrev pub work_dir : Bytes
work_dir = b'/' ∷ codes "tmp"

write_fixed-StaysIn : StaysIn work_dir write_fixed
write_fixed-StaysIn request s q inside outside = ground (
  arith,
  inside,
  outside,
  content-put request.output_path q signed_file s,
  equal_iff request.output_path q,
)

abbrev pub smooth : Outcomes
smooth = record {
  temp_dir = ok work_dir;
  create = ok tt;
  upload_stat = ok tt;
  renaming = ok tt;
  turn = granted;
  output_stat = ok tt;
  delivery = none;
  stays = λ path. false;
}

abbrev pub upload_of : Bytes → SignRequest
upload_of sent = record {
  body = record { sent = sent; broken = none };
  filename = codes "app";
  name = codes "App";
  url = [];
}

abbrev elsewhere : Store
elsewhere = (codes "etc", codes "x") ∷ []

served_size :
    (sign_upload plain_tables write_fixed 1000 smooth
      (upload_of tiny_pe)
      fresh_response
      elsewhere).2
    ≡ ok (length tiny_pe)
unfolding sign_upload in_dir copy_body with_token write_signed detect_kind is_pe file_reader equal
    signing_request sanitize_metadata trim_space any content put remove rename safe_extension
    compatible_ext sanitized_ext checked_ext to_lower flat_map runes_skip ext base
served_size = refl

sign_upload-content_example :
    LeftBehind work_dir smooth (codes "etc")
    ⊎ (content
          (codes "etc")
          (sign_upload plain_tables write_fixed 1000 smooth
            (upload_of tiny_pe)
            fresh_response
            elsewhere).0
        ≡ (if is_below work_dir (codes "etc") then none else content (codes "etc") elsewhere))
sign_upload-content_example =
    sign_upload-content plain_tables write_fixed 1000 smooth (upload_of tiny_pe) fresh_response
      elsewhere work_dir (codes "etc") refl write_fixed-StaysIn

sign_upload-Served_example :
    Served plain_tables write_fixed 1000 smooth
      (upload_of tiny_pe)
      work_dir
      (length tiny_pe)
      (sign_upload plain_tables write_fixed 1000 smooth
        (upload_of tiny_pe)
        fresh_response
        elsewhere).1
sign_upload-Served_example =
    sign_upload-Served plain_tables write_fixed 1000 smooth (upload_of tiny_pe) elsewhere work_dir
      (length tiny_pe) refl served_size

abbrev pub idle : Daemon (Unit {0})
idle = record { keys = tt; uploads = 0; files = elsewhere }

abbrev pub closed : Config (Unit {0})
closed = record { allow_unauthenticated_loopback = true; verifier = none }

abbrev pub local : Caller
local = record { remote_addr = codes "[::1]:80"; authorization = [] }

pub idle-IsFresh : IsFresh work_dir idle
unfolding content is_below
idle-IsFresh q inside = ground (arith, inside, equal_iff (codes "etc") q)

handle_sign-restores_example :
    ((handle_sign plain_tables tiny_net closed write_fixed 1000 smooth local
        (upload_of tiny_pe)
        idle).0.uploads
      ≡ 0)
    × (LeftBehind work_dir smooth (codes "etc")
        ⊎ (content
              (codes "etc")
              (handle_sign plain_tables tiny_net closed write_fixed 1000 smooth local
                (upload_of tiny_pe)
                idle).0.files
            ≡ content (codes "etc") elsewhere))
handle_sign-restores_example =
    handle_sign-restores plain_tables tiny_net closed write_fixed 1000 smooth local
      (upload_of tiny_pe) idle work_dir (codes "etc") refl write_fixed-StaysIn idle-IsFresh

text_is_refused :
    (handle_sign plain_tables tiny_net closed write_fixed 1000 smooth local
      (upload_of (codes "text"))
      idle).1
    ≡ plain 415 (codes "request body is not a PE or MSI file")
unfolding handle_sign authenticate is_loopback is_loopback_ip sign_upload in_dir copy_body
    detect_kind is_pe is_msi file_reader equal reply_sign_error sign_error_reply cause http_error
    write_body
text_is_refused = refl

abbrev probe_at : ℕ → Probe
probe_at t = record {
  at_first = t;
  turn = granted;
  others = λ c. c;
  at_second = t;
  health = ok tt;
  expired = false;
  at_stored = t + 1;
}

abbrev no_health : HealthCache
no_health = record { health_at = none; health_err = ok tt }

healthy_now : (handle_health (some 5) (probe_at 10) no_health).1 ≡ healthy_reply
unfolding handle_health cached_health with_token check_health store_health write_health write_body
healthy_now = refl

handle_health-Healthy_example : Healthy (some 5) (probe_at 10) no_health
handle_health-Healthy_example = handle_health-Healthy (some 5) (probe_at 10) no_health healthy_now

asks-Spaced_example :
    Spaced 5 none (asks 5 (probe_at 10 ∷ probe_at 12 ∷ probe_at 20 ∷ []) no_health) × Unasked 5
asks-Spaced_example =
    asks-Spaced 5 (probe_at 10 ∷ probe_at 12 ∷ probe_at 20 ∷ []) no_health (omega arith)
      (omega arith, refl, (omega arith, refl, (omega arith, refl, tt)))

two_of_three : asks 5 (probe_at 10 ∷ probe_at 12 ∷ probe_at 20 ∷ []) no_health ≡ 10 ∷ 20 ∷ []
unfolding asks asked cached_health check_health store_health
two_of_three = refl

abbrev read_failure : Error
read_failure = wrap (codes "writing signed file") (fault (other (codes "I/O error")))

text_in_the_file :
    reply_sign_error read_failure (begun 200 (some 100) (codes "MZ"))
    ≡ begun 200 (some 100) (codes "MZsigning failed\n")
unfolding reply_sign_error sign_error_reply cause http_error write_body
text_in_the_file = refl
