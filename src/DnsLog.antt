-- ===== src/DnsLog.antt =====
-- manager/dnslog.go: the log of the DNS queries. Times are numbers, and 0 is the zero time. The
-- callback onChange, which runs on its own, and the mutex are left out.
pub mod Reads
use amneziawg_windows_client.Common.{
  List, [], ◌∷◌, ◌++◌, Bool, true, false, not, if◌then◌else◌, ◌==◌, ◌&&◌, ltb, leb, ◌-◌, drop,
  length, ℕ,
}
use amneziawg_windows_client.Common.Text.{Text}

-- DNSLogEntry, without the times.
pub record DnsLogEntry : Type 0 where
  pub domain : Text
  pub query_type : Text
  pub target : Text
  pub response_ips : List Text
  pub error : Text

-- An entry with its Timestamp.
pub record Stamped : Type 0 where
  pub timestamp : ℕ
  pub entry : DnsLogEntry

-- Go's int: a natural number, or `negsuc n` for -1 - n.
pub data ℤ : Type 0 where
  pos negsuc : ℕ → ℤ

pub record DnsLogger : Type 0 where
  pub entries : List Stamped
  pub max_size : ℤ
  pub enabled : Bool

-- The newest entries, where the log is bounded: `maxSize > 0 && len > maxSize`.
unfoldable pub newest : ℤ → List Stamped → List Stamped
newest (negsuc n) es = es
newest (pos n) es = if ltb 0 n && ltb n (length es) then drop (length es - n) es else es

-- DNSLogger.Log at the time `now`.
unfoldable pub log : ℕ → Stamped → DnsLogger → DnsLogger
log now e l =
    let e' = if e.timestamp == 0 then record e { timestamp = now } else e in
    if not l.enabled then l else record l { entries = newest l.max_size (l.entries ++ e' ∷ []) }

-- GetEntriesSince
unfoldable pub get_entries_since : ℕ → List Stamped → List Stamped
get_entries_since since [] = []
get_entries_since since (e ∷ rest) =
    let later = get_entries_since since rest in if ltb since e.timestamp then e ∷ later else later

-- Clear
unfoldable pub clear : DnsLogger → DnsLogger
clear l = record l { entries = [] }

-- SetEnabled
unfoldable pub set_enabled : Bool → DnsLogger → DnsLogger
set_enabled enabled l = record l { enabled = enabled }

-- Count
unfoldable pub count : DnsLogger → ℕ
count l = length l.entries

-- GetEntriesSinceIndex; no entries where the source returns nil.
unfoldable pub get_entries_since_index : ℤ → DnsLogger → List Stamped
get_entries_since_index (negsuc n) l = l.entries
get_entries_since_index (pos n) l = if leb (length l.entries) n then [] else drop n l.entries
