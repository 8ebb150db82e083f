-- ===== src/Tests/Serving.antt =====
-- A sign request that is served, at a daemon whose one upload slot of two is taken.
use codesign.Common.{◌≡◌, refl, codes, length, equal, equal_self, any, arith, ◌∙◌}
use codesign.Common.Errors.{ok}
use codesign.Common.Store.{content-put}
use codesign.Server.Auth.{authenticate}
use codesign.Server.Detect.{file_reader, detect_kind, is_pe, exe}
use codesign.Server.Handler.{Daemon, handle_sign}
use codesign.Server.Handler.Serving.{handle_sign_serves}
use codesign.Server.Loopback.{is_loopback, is_loopback_ip}
use codesign.Server.Upload.Served.{Served}
use codesign.Server.Upload.Success.{SignsAll, AllGoes, IsSignable}
use codesign.Text.Space.{trim_space}
use codesign.Tests.Signing.{
  write_fixed, signed_file, work_dir, smooth, closed, idle, upload_of, local,
}
use codesign.Tests.Tables.{plain_tables, tiny_net}
use codesign.Tests.Uploads.{tiny_pe}

abbrev half_full : Daemon (Unit {0})
half_full = record idle { uploads = 1 }

write_fixed-SignsAll : SignsAll write_fixed
write_fixed-SignsAll request s b is_there apart = record {
  done = refl;
  file = signed_file;
  left =
      content-put request.output_path request.output_path signed_file s
      ∙ rw (equal_self request.output_path) refl;
}

smooth-AllGoes : AllGoes smooth work_dir
smooth-AllGoes = record {
  is_dir = refl;
  creates = refl;
  stats = refl;
  renames = refl;
  has_turn = refl;
  stats_output = refl;
  delivers = refl;
}

app-IsSignable : IsSignable 1000 (upload_of tiny_pe) exe
unfolding detect_kind is_pe file_reader equal trim_space any
app-IsSignable = record {
  fits = omega arith;
  unbroken = refl;
  detected = refl;
  name_clean = record { fits = omega arith; safe = refl };
  url_clean = record { fits = omega arith; safe = refl };
}

local_is_let_in :
    (authenticate plain_tables tiny_net closed local half_full.keys).1 ≡ ok (codes "loopback")
unfolding authenticate is_loopback is_loopback_ip equal
local_is_let_in = refl

handle_sign_serves_example :
    Served plain_tables write_fixed 1000 smooth
      (upload_of tiny_pe)
      work_dir
      (length tiny_pe)
      (handle_sign plain_tables tiny_net closed write_fixed 1000 smooth local
        (upload_of tiny_pe)
        half_full).1
handle_sign_serves_example =
    handle_sign_serves plain_tables tiny_net closed write_fixed 1000 smooth local
      (upload_of tiny_pe) half_full work_dir (codes "loopback") exe local_is_let_in (omega arith)
      app-IsSignable smooth-AllGoes write_fixed-SignsAll
