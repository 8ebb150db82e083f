-- ===== src/Tests/Wire.antt =====
-- The client at the server: a file is signed on the way.
use codesign.Common.{◌≡◌, refl, codes, equal, any}
use codesign.Common.Errors.{ok}
use codesign.Common.Store.{content, put, remove, rename}
use codesign.Client.{sign_post, sign_once, judge}
use codesign.Client.Wire.{
  IsPlainToken, wire_value, skip_wire_space, header_get, caller_of, request_of,
}
use codesign.Client.Wire.Delivered.{Delivered, at_server, sign_once-Delivered}
use codesign.Server.Auth.{authenticate}
use codesign.Server.Detect.{file_reader, detect_kind, is_pe}
use codesign.Server.Extension.{safe_extension, compatible_ext, sanitized_ext, checked_ext}
use codesign.Server.Handler.{handle_sign}
use codesign.Server.Headers.{signing_request, sanitize_metadata}
use codesign.Server.Loopback.{is_loopback, is_loopback_ip}
use codesign.Server.Response.{write_body}
use codesign.Server.Upload.{with_token, copy_body, write_signed, in_dir, sign_upload}
use codesign.Tests.Backends.{token_backend}
use codesign.Tests.Tools.{last_or}
use codesign.Backends.{publish_signed, with_pin_file}
use codesign.Backends.Contract.{osslsigncode}
use codesign.Backends.Osslsigncode.{ossl_sign, ossl_write, ossl_options}
use codesign.Signer.{check}
use codesign.Tests.Clients.{config, options}
use codesign.Tests.Signing.{idle-IsFresh, smooth, idle, closed, work_dir, signed_file}
use codesign.Tests.Tables.{plain_tables, tiny_net}
use codesign.Tests.Uploads.{tiny_pe}
use codesign.Text.FilePath.{base, ext}
use codesign.Text.Fold.{to_lower}
use codesign.Text.Space.{trim_space}
use codesign.Text.Utf8.{runes_skip, encode_rune}
use mathlib.Core.List.{flat_map}

gets_signed_file :
    (sign_once (sign_post config (codes "a.exe") tiny_pe options) (
      at_server plain_tables tiny_net closed token_backend 1000 smooth idle
        (codes "[::1]:80")
        (codes "200 OK")
        (ok tt)
        (ok tt))).0
    ≡ ok signed_file
unfolding osslsigncode ossl_sign check ossl_write ossl_options publish_signed with_pin_file last_or
    sign_once sign_post judge caller_of request_of header_get wire_value skip_wire_space handle_sign
    authenticate is_loopback is_loopback_ip sign_upload in_dir copy_body with_token write_signed
    write_body detect_kind is_pe file_reader equal signing_request sanitize_metadata trim_space any
    content put remove rename safe_extension compatible_ext sanitized_ext checked_ext to_lower
    flat_map runes_skip ext base encode_rune
gets_signed_file = refl

plain_token : IsPlainToken config.token
unfolding wire_value skip_wire_space
plain_token = refl

sign_once-Delivered_example :
    Delivered plain_tables tiny_net closed token_backend 1000 smooth idle
      (codes "[::1]:80")
      (codes "200 OK")
      config
      (codes "a.exe")
      tiny_pe
      options
      work_dir
      signed_file
sign_once-Delivered_example =
    sign_once-Delivered plain_tables tiny_net closed token_backend 1000 smooth idle
      (codes "[::1]:80") (codes "200 OK") (ok tt) (ok tt) config (codes "a.exe") tiny_pe options
      work_dir signed_file refl idle-IsFresh refl plain_token gets_signed_file
