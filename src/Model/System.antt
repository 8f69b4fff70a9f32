-- ===== src/Model/System.antt =====
-- PoC-webui-v2/internal/model/system.go: the System singleton, one record per struct, and its
-- effective values. Numbers that the JSON schema bounds below by 1 are native numbers.
use songbird_prototypes.Prelude.{
  ℕ, ◌*◌, String, Bool, false, ◌&&◌, Option, none, some, List, ltb, eqb, if◌then◌else◌, any,
}
use songbird_prototypes.Model.Types.{nil_or_true}
use songbird_prototypes.Model.Durations.{Duration, parse_duration, is_positive, second}

pub record Lockout : Type 0 where
  pub threshold : ℕ
  pub duration : String

pub record Acme : Type 0 where
  pub email : String
  pub directory_url : String
  pub domains : List String
  pub dns_provider : String
  pub dns_credentials : String
  pub renew_before_days : ℕ

pub record Certificate : Type 0 where
  pub mode : String
  pub acme : Option Acme

pub record AdminUi : Type 0 where
  pub theme : String
  pub language : String

pub record Admin : Type 0 where
  pub https_port : ℕ
  pub redirect_http : Option Bool
  pub session_timeout : String
  pub lockout : Option Lockout
  pub trusted_hosts : List String
  pub certificate : Option Certificate
  pub ui : Option AdminUi

pub record Ntp : Type 0 where
  pub enabled : Bool
  pub servers : List String
  pub serve_to_interfaces : List String

pub record DnsLocalRecord : Type 0 where
  pub name : String
  pub address : String

pub record Dns : Type 0 where
  pub mode : String
  pub upstreams : List String
  pub failover_after_timeouts : ℕ
  pub dnssec : Option Bool
  pub local_domain : String
  pub local_records : List DnsLocalRecord
  pub dns64 : Option Bool
  pub serve_to_interfaces : List String

pub record Rotation : Type 0 where
  pub max_file_size_mb : ℕ
  pub retention_days : ℕ
  pub compress : Option Bool

pub record AnonymizeSourceIp : Type 0 where
  pub enabled : Bool
  pub interfaces : List String
  pub ipv4_mask_bits : ℕ
  pub ipv6_mask_bits : ℕ

pub record Syslog : Type 0 where
  pub enabled : Bool
  pub server : String
  pub port : ℕ
  pub transport : String
  pub facility : String

pub record Logging : Type 0 where
  pub directory : String
  pub rotation : Option Rotation
  pub anonymize_source_ip : Option AnonymizeSourceIp
  pub syslog : Option Syslog

pub record SessionTimeouts : Type 0 where
  pub tcp_established : String
  pub tcp_handshake : String
  pub tcp_closing : String
  pub udp : String
  pub udp_bidirectional : String
  pub icmp : String

pub record SessionSettings : Type 0 where
  pub timeouts : Option SessionTimeouts
  pub max_sessions : ℕ
  pub ipv4_non_initial_fragments : String
  pub on_rule_change : String

pub record Nat64 : Type 0 where
  pub enabled : Bool
  pub prefix : String

pub record GitAuth : Type 0 where
  pub type : String
  pub ssh_private_key : String
  pub token : String
  pub username : String

pub record Git : Type 0 where
  pub enabled : Bool
  pub remote : String
  pub branch : String
  pub auto_push : Option Bool
  pub pull_interval : String
  pub retry_interval : String
  pub auth : Option GitAuth

pub record Updates : Type 0 where
  pub channel : String
  pub automatic : Option Bool
  pub window : String

pub record ThreatFeed : Type 0 where
  pub name : String
  pub url : String
  pub enabled : Option Bool

pub record ThreatFeeds : Type 0 where
  pub enabled : Bool
  pub refresh_interval : String
  pub sources : List ThreatFeed

pub record SystemSpec : Type 0 where
  pub hostname : String
  pub timezone : String
  pub admin : Option Admin
  pub ntp : Option Ntp
  pub dns : Option Dns
  pub logging : Option Logging
  pub session : Option SessionSettings
  pub nat64 : Option Nat64
  pub git : Option Git
  pub updates : Option Updates
  pub threat_feeds : Option ThreatFeeds

-- The management port (DM-35), 443 by default.
unfoldable pub https_port : SystemSpec → ℕ
https_port s = elim s.admin [
  | none ↦ 443
  | some a ↦ if eqb a.https_port 0 then 443 else a.https_port
]

-- A duration that parses to a positive value, or the default.
duration_or : Duration → String → Duration
duration_or d text = elim (parse_duration text) [
  | none ↦ d
  | some v ↦ if is_positive v then v else d
]

-- The lifetime of a session of the UI, 8 hours by default.
unfoldable pub session_timeout : SystemSpec → Duration
unfolding duration_or
session_timeout s = elim s.admin [
  | none ↦ 8 * 3600 * second
  | some a ↦ duration_or (8 * 3600 * second) a.session_timeout
]

lockout_of : Option Lockout → ℕ × Duration
unfolding duration_or
lockout_of none = (5, 600 * second)
lockout_of (some l) =
    (if ltb 0 l.threshold then l.threshold else 5, duration_or (600 * second) l.duration)

-- The number of failures and the duration of a lockout, 5 and 10 minutes by default.
unfoldable pub lockout_policy : SystemSpec → ℕ × Duration
unfolding lockout_of
lockout_policy s = elim s.admin [ none ↦ (5, 600 * second) | some a ↦ lockout_of a.lockout ]

unfoldable pub threat_feeds_on : SystemSpec → Bool
threat_feeds_on s = elim s.threat_feeds [
  | none ↦ false
  | some t ↦ t.enabled && any (λ f. nil_or_true f.enabled) t.sources
]

-- The zero value, which `Sys` returns where the System object is missing.
unfoldable pub empty_system : SystemSpec
empty_system = record {
  hostname = "";
  timezone = "";
  admin = none;
  ntp = none;
  dns = none;
  logging = none;
  session = none;
  nat64 = none;
  git = none;
  updates = none;
  threat_feeds = none;
}
