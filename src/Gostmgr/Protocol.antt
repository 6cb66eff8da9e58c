-- ===== src/Gostmgr/Protocol.antt =====
-- internal/gostmgr/protocol.go: gost's proxy protocols and channels, and which of them a node may
-- combine.
pub mod Combinations
use gost_webui.Prelude.{
  String, Bool, true, false, not, ◌&&◌, ◌||◌, Option, none, some, List, [], ◌∷◌, ◌==◌, string_eq,
  if◌then◌else◌,
}
use gost_webui.Model.{Node}
use gost_webui.Model.Text.{to_lower, trim_space}

pub record GostProtocol : Type 0 where
  pub value : String
  pub label : String
  pub default_transport : String
  -- userpass / user / ss / none
  pub auth : String

pub record GostTransport : Type 0 where
  pub value : String
  pub label : String
  -- tcp / udp / raw
  pub network : String
  pub path : Bool
  pub local_only : Bool
  pub privileged : Bool

abbrev protocol : String → String → String → String → GostProtocol
protocol v l t a = record { value = v; label = l; default_transport = t; auth = a }

abbrev channel : String → String → String → GostTransport
channel v l n = record {
  value = v;
  label = l;
  network = n;
  path = false;
  local_only = false;
  privileged = false;
}

abbrev path_channel : String → String → GostTransport
path_channel v l = record (channel v l "tcp") { path = true }

abbrev raw_channel : String → String → GostTransport
raw_channel v l = record (channel v l "raw") { local_only = true; privileged = true }

unfoldable pub gost_protocols : List GostProtocol
gost_protocols =
    protocol "http" "HTTP" "tcp" "userpass"
    ∷ protocol "http2" "HTTP/2" "http2" "userpass"
    ∷ protocol "socks4" "SOCKS4" "tcp" "user"
    ∷ protocol "socks4a" "SOCKS4A" "tcp" "user"
    ∷ protocol "socks5" "SOCKS5" "tcp" "userpass"
    ∷ protocol "ss" "Shadowsocks TCP" "tcp" "ss"
    ∷ protocol "ssu" "Shadowsocks UDP" "udp" "ss"
    ∷ protocol "sni" "SNI 透明代理" "tcp" "none"
    ∷ protocol "relay" "GOST Relay" "tcp" "userpass"
    ∷ []

unfoldable pub gost_transports : List GostTransport
gost_transports =
    channel "tcp" "TCP" "tcp"
    ∷ channel "mtcp" "Multiplex TCP" "tcp"
    ∷ channel "udp" "UDP" "udp"
    ∷ channel "tls" "TLS" "tcp"
    ∷ channel "dtls" "DTLS（客户端需证书）" "udp"
    ∷ channel "mtls" "Multiplex TLS" "tcp"
    ∷ path_channel "ws" "WebSocket"
    ∷ path_channel "wss" "WebSocket TLS"
    ∷ path_channel "mws" "Multiplex WebSocket"
    ∷ path_channel "mwss" "Multiplex WebSocket TLS"
    ∷ path_channel "h2" "HTTP/2 TLS"
    ∷ path_channel "h2c" "HTTP/2 Cleartext"
    ∷ channel "http2" "HTTP/2 Proxy Channel" "tcp"
    ∷ path_channel "grpc" "gRPC"
    ∷ channel "pht" "HTTP Tunnel" "tcp"
    ∷ channel "phts" "HTTPS Tunnel" "tcp"
    ∷ channel "ssh" "SSH" "tcp"
    ∷ channel "sshd" "SSHD" "tcp"
    ∷ channel "kcp" "KCP" "udp"
    ∷ channel "quic" "QUIC" "udp"
    ∷ channel "h3" "HTTP/3" "udp"
    ∷ channel "http3" "HTTP/3 Proxy Channel" "udp"
    ∷ channel "wt" "WebTransport" "udp"
    ∷ channel "ohttp" "HTTP Obfuscation" "tcp"
    ∷ channel "otls" "TLS Obfuscation" "tcp"
    ∷ raw_channel "icmp" "ICMPv4"
    ∷ raw_channel "icmp6" "ICMPv6"
    ∷ raw_channel "ftcp" "Fake TCP"
    ∷ []

unfoldable pub find_protocol : String → List GostProtocol → Option GostProtocol
find_protocol v [] = none
find_protocol v (p ∷ ps) = let rest = find_protocol v ps in if p.value == v then some p else rest

unfoldable pub find_transport : String → List GostTransport → Option GostTransport
find_transport v [] = none
find_transport v (t ∷ ts) = let rest = find_transport v ts in if t.value == v then some t else rest

unfoldable pub protocol_spec : String → Option GostProtocol
protocol_spec value = find_protocol (to_lower (trim_space value)) gost_protocols

unfoldable pub transport_spec : String → Option GostTransport
transport_spec value = find_transport (to_lower (trim_space value)) gost_transports

unfoldable pub node_gost_protocol : Node → String
node_gost_protocol n =
    if trim_space n.gost_protocol == "" then "ss" else to_lower (trim_space n.gost_protocol)

default_transport_of : Option GostProtocol → String
default_transport_of none = "tcp"
default_transport_of (some p) = p.default_transport

unfoldable pub node_gost_transport : Node → String
unfolding default_transport_of
node_gost_transport n =
    if not (trim_space n.gost_transport == "")
    then to_lower (trim_space n.gost_transport)
    else default_transport_of (protocol_spec (node_gost_protocol n))

pub data NodeError : Type 0 where
  unknown_protocol unknown_transport only_local udp_channel ssu_channel http2_channel : NodeError
  ssh_credentials extra_udp_protocol extra_udp_channel : NodeError

-- The checks of a known protocol and a known channel, in their order.
unfoldable pub combine_error : Node → GostProtocol → GostTransport → Option NodeError
combine_error n p t =
    if t.local_only && not n.gost_local
    then some only_local
    else if t.value == "udp" && not (p.value == "ssu") && not (p.value == "relay")
    then some udp_channel
    else if p.value == "ssu" && not (t.value == "udp")
    then some ssu_channel
    else if p.value == "http2" && not (t.value == "http2")
    then some http2_channel
    else if (t.value == "ssh" || t.value == "sshd") && (p.value == "ss" || p.value == "ssu")
    then some ssh_credentials
    else if n.udp && not (p.value == "ss")
    then some extra_udp_protocol
    else if n.udp && not (t.network == "tcp")
    then some extra_udp_channel
    else none

spec_error : Node → Option GostProtocol → Option GostTransport → Option NodeError
unfolding combine_error
spec_error n none t = some unknown_protocol
spec_error n (some p) none = some unknown_transport
spec_error n (some p) (some t) = combine_error n p t

-- `none` is Go's nil; the node is never nil.
unfoldable pub validate_gost_node : Node → Option NodeError
unfolding spec_error
validate_gost_node n =
    spec_error n (protocol_spec (node_gost_protocol n)) (transport_spec (node_gost_transport n))
