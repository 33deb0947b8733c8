-- ===== src/Storage/Entry.antt =====
-- src/storage/logger.rs: the entries of the access log, and which of them are kept. The time, printed,
-- is an argument.
use home_guard.Prelude.{ℕ, Bool, true, false, Option, none, some, if◌then◌else◌, ◌==◌, nat_eq}
use home_guard.Prelude.Net.{IpAddr}
use home_guard.Prelude.Text.{Text, bytes}
use home_guard.Rule.Types.{Policy, direct, reject, proxy, show_policy}

pub data LogGranularity : Type 0 where
  all blocked_and_proxy blocked_only : LogGranularity

unfoldable pub from_value : ℕ → LogGranularity
from_value value =
    if value == 1
    then all
    else if value == 2
    then blocked_and_proxy
    else if value == 3
    then blocked_only
    else blocked_and_proxy

unfoldable pub should_log_dns : Bool → LogGranularity → Bool
should_log_dns is_blocked all = true
should_log_dns is_blocked blocked_and_proxy = is_blocked
should_log_dns is_blocked blocked_only = is_blocked

unfoldable pub should_log_tcp : Policy → LogGranularity → Bool
should_log_tcp policy all = true
should_log_tcp direct blocked_and_proxy = false
should_log_tcp reject blocked_and_proxy = true
should_log_tcp (proxy name) blocked_and_proxy = true
should_log_tcp direct blocked_only = false
should_log_tcp reject blocked_only = true
should_log_tcp (proxy name) blocked_only = false

pub record DnsLogEntry : Type 0 where
  pub ts : Text
  pub entry_type : Text
  pub src : IpAddr
  pub domain : Text
  pub result : Text
  pub reason : Option Text
  pub latency_ms : ℕ

-- `DnsLogEntry::allowed` and `DnsLogEntry::blocked`, at a time that is printed.
unfoldable pub allowed : Text → IpAddr → Text → ℕ → DnsLogEntry
allowed ts src domain latency = record {
  ts = ts;
  entry_type = bytes "dns";
  src = src;
  domain = domain;
  result = bytes "allow";
  reason = none;
  latency_ms = latency;
}

unfoldable pub blocked : Text → IpAddr → Text → Text → ℕ → DnsLogEntry
blocked ts src domain reason latency = record {
  ts = ts;
  entry_type = bytes "dns";
  src = src;
  domain = domain;
  result = bytes "blocked";
  reason = some reason;
  latency_ms = latency;
}

pub record TcpLogEntry : Type 0 where
  pub ts : Text
  pub entry_type : Text
  pub src : IpAddr × ℕ
  pub dst : IpAddr × ℕ
  pub domain : Option Text
  pub policy : Text
  pub bytes_up : ℕ
  pub bytes_down : ℕ
  pub duration_ms : ℕ

-- `TcpLogEntry::new`
unfoldable pub tcp_entry :
    Text → IpAddr × ℕ → IpAddr × ℕ → Option Text → Policy → ℕ → ℕ → ℕ → TcpLogEntry
unfolding show_policy
tcp_entry ts src dst domain policy up down duration = record {
  ts = ts;
  entry_type = bytes "tcp";
  src = src;
  dst = dst;
  domain = domain;
  policy = show_policy policy;
  bytes_up = up;
  bytes_down = down;
  duration_ms = duration;
}
