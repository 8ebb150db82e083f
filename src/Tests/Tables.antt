-- ===== src/Tests/Tables.antt =====
-- Unicode tables and network parsers for the tests.
use codesign.Common.{inl, none, some, codes, equal, if◌then◌else◌}
use codesign.Server.Loopback.{Net, v6_loopback}
use codesign.Text.Fold.{Tables}
use codesign.Text.FoldAscii.{FoldsApart}

-- Tables that leave runes beyond ASCII alone.
abbrev pub plain_tables : Tables
plain_tables = record { fold = λ r. r; lower = λ r. r }

pub plain_folds : FoldsApart plain_tables
plain_folds = record { apart = λ r h. inl h }

-- A network that knows one address, with its port and without.
abbrev pub tiny_net : Net
tiny_net = record {
  split_host_port = λ addr. if equal addr (codes "[::1]:80") then some (codes "::1") else none;
  parse_ip = λ host. if equal host (codes "::1") then some v6_loopback else none;
}
