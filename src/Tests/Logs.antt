-- ===== src/Tests/Logs.antt =====
-- manager/dnslog.go and ringlogger/ringlogger.go at concrete inputs.
use amneziawg_windows_client.Common.{refl, ◌≡◌, true, ◌∷◌, [], arith, ◌%◌, List, map, All, ℕ}
use amneziawg_windows_client.Common.Text.{codes, Text, is_space, trim_space}
use amneziawg_windows_client.DnsLog.{pos, get_entries_since_index, count, Stamped, DnsLogger}
use amneziawg_windows_client.DnsLog.Reads.{log_all, get_entries_since_index-log_all, all_stamped}
use amneziawg_windows_client.RingLog.{LogMem, pad, follow_from_cursor}
use amneziawg_windows_client.RingLog.Follow.{
  follow_line, trimmed, writer, write_all, IsWritten, follow_from_cursor-write_all,
}

abbrev about : Text → Stamped
about domain = record {
  timestamp = 0;
  entry = record {
    domain = domain;
    query_type = codes "A";
    target = codes "tunnel";
    response_ips = [];
    error = [];
  };
}

abbrev small_log : DnsLogger
small_log = record { entries = about (codes "a") ∷ []; max_size = pos 2; enabled = true }

abbrev open_log : DnsLogger
open_log = record { entries = about (codes "a") ∷ []; max_size = pos 0; enabled = true }

get_entries_since_index-log_all_example :
    get_entries_since_index
      (pos (count open_log))
      (log_all ((5, about (codes "b")) ∷ (6, about (codes "c")) ∷ []) open_log)
    ≡ all_stamped ((5, about (codes "b")) ∷ (6, about (codes "c")) ∷ [])
get_entries_since_index-log_all_example =
    get_entries_since_index-log_all ((5, about (codes "b")) ∷ (6, about (codes "c")) ∷ []) open_log
      refl refl

-- A ring that the next write fills to its end.
abbrev some_ring : LogMem
some_ring = record {
  next_index = 4294967295;
  lines = λ slot. record { time_ns = 0; line = pad 512 [] };
}

abbrev some_texts : List (Text × ℕ)
some_texts = (codes " hello ", 5) ∷ (codes "again", 6) ∷ []

some_texts-IsWritten : All IsWritten some_texts
unfolding trim_space is_space
some_texts-IsWritten = ((refl, omega arith, refl), ((refl, omega arith, refl), tt))

follow_from_cursor-write_all_example :
    follow_from_cursor
      (some_ring.next_index % 2048)
      (write_all some_texts (writer (codes "TUN") some_ring))
    ≡ (map (follow_line (codes "TUN")) (map trimmed some_texts), 1)
follow_from_cursor-write_all_example =
    follow_from_cursor-write_all (codes "TUN") some_texts some_ring (omega arith) refl
      some_texts-IsWritten (omega arith)
