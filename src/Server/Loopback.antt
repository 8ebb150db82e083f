-- ===== src/Server/Loopback.antt =====
-- `isLoopback` of server/server.go: is the peer on 127.0.0.0/8 or ::1? How Go's `net` splits an
-- address and reads an IP literal is a parameter here.
use codesign.Common.{
  Bool, false, [], ◌∷◌, Option, none, some, Bytes, get_or, take, equal, ◌==◌, if◌then◌else◌,
}

-- `net.SplitHostPort` gives the host; `net.ParseIP` gives the 16 bytes of an address.
pub record Net : Type 0 where
  pub split_host_port : Bytes → Option Bytes
  pub parse_ip : Bytes → Option Bytes

abbrev pub v4_in_v6 : Bytes
v4_in_v6 = 0 ∷ 0 ∷ 0 ∷ 0 ∷ 0 ∷ 0 ∷ 0 ∷ 0 ∷ 0 ∷ 0 ∷ 0xFF ∷ 0xFF ∷ []

abbrev pub v6_loopback : Bytes
v6_loopback = 0 ∷ 0 ∷ 0 ∷ 0 ∷ 0 ∷ 0 ∷ 0 ∷ 0 ∷ 0 ∷ 0 ∷ 0 ∷ 0 ∷ 0 ∷ 0 ∷ 0 ∷ 1 ∷ []

-- `IP.IsLoopback` of a 16-byte address: an IPv4 address is one that stands behind `v4_in_v6`.
unfoldable pub is_loopback_ip : Bytes → Bool
is_loopback_ip ip =
    if equal (take 12 ip) v4_in_v6 then get_or ip 12 0 == 127 else equal ip v6_loopback

abbrev pub host_of : Net → Bytes → Bytes
host_of net remote_addr = elim (net.split_host_port remote_addr) [
  | none ↦ remote_addr
  | some host ↦ host
]

abbrev pub is_loopback_parsed : Option Bytes → Bool
is_loopback_parsed none = false
is_loopback_parsed (some ip) = is_loopback_ip ip

unfoldable pub is_loopback : Net → Bytes → Bool
is_loopback net remote_addr = is_loopback_parsed (net.parse_ip (host_of net remote_addr))
