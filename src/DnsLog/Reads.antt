-- ===== src/DnsLog/Reads.antt =====
-- manager/dnslog.go: the bound of the log, and reading it a part at a time.
use amneziawg_windows_client.Common.{
  ◌≡◌, ◌∷◌, ◌++◌, true, refl, ap, if◌then◌else◌, ◌≤◌, ◌<◌, ◌-◌, ◌∙◌, drop, ◌==◌, inr, arith,
  length-append, [], ℕ, Bool, List, sym, inl, drop-length, leb, length-drop, Bool-cases, length,
}
use amneziawg_windows_client.DnsLog.{
  DnsLogger, newest, clear, set_enabled, get_entries_since_index, log, pos, Stamped, count,
}
use mathlib.Core.List.{append_assoc, append-nil}

-- What the handlers and the user interface do to the log.
pub data Use : Type 0 where
  logging : ℕ → Stamped → Use
  clearing : Use
  enabling : Bool → Use

unfoldable pub use_log : List Use → DnsLogger → DnsLogger
use_log [] l = l
use_log (logging now e ∷ rest) l = use_log rest (log now e l)
use_log (clearing ∷ rest) l = use_log rest (clear l)
use_log (enabling b ∷ rest) l = use_log rest (set_enabled b l)

-- The log is bounded by `n` entries.
abbrev pub IsBounded : ℕ → DnsLogger → Type 0
IsBounded n l = (l.max_size ≡ pos n) × (length l.entries ≤ n)

length-newest : (n : ℕ) (es : List Stamped) → 0 < n → length (newest (pos n) es) ≤ n
unfolding newest
length-newest n es h = ground (arith, length-drop (length es - n) es)

log-IsBounded :
    (n now : ℕ) (e : Stamped) (l : DnsLogger) → 0 < n → IsBounded n l → IsBounded n (log now e l)
unfolding log
log-IsBounded n now e l h b = elim (Bool-cases l.enabled) [
  | inl on ↦ rw (on, b.0) (refl, length-newest n _ h)
  | inr off ↦ rw off b
]

-- Whatever is logged and switched, a log with a bound above zero never holds more entries than that.
use_log-IsBounded :
    (n : ℕ) (uses : List Use) (l : DnsLogger) → 0 < n → IsBounded n l → IsBounded n (use_log uses l)
unfolding use_log clear set_enabled
use_log-IsBounded n [] l h b = b
use_log-IsBounded n (logging now e ∷ uses) l h b =
    use_log-IsBounded n uses (log now e l) h (log-IsBounded n now e l h b)
use_log-IsBounded n (clearing ∷ uses) l h b =
    use_log-IsBounded n uses (clear l) h (b.0, omega arith)
use_log-IsBounded n (enabling x ∷ uses) l h b = use_log-IsBounded n uses (set_enabled x l) h b

-- The entries as they are logged: with the time of the call where they have none.
abbrev pub stamped : ℕ → Stamped → Stamped
stamped now e = if e.timestamp == 0 then record e { timestamp = now } else e

-- A series of entries, each with the time of its call.
unfoldable pub log_all : List (ℕ × Stamped) → DnsLogger → DnsLogger
log_all [] l = l
log_all ((now, e) ∷ rest) l = log_all rest (log now e l)

abbrev pub all_stamped : List (ℕ × Stamped) → List Stamped
all_stamped [] = []
all_stamped ((now, e) ∷ rest) = stamped now e ∷ all_stamped rest

entries-log_all :
    (es : List (ℕ × Stamped)) (l : DnsLogger)
    → l.enabled ≡ true
    → l.max_size ≡ pos 0
    → (log_all es l).entries ≡ l.entries ++ all_stamped es
unfolding log_all log newest
entries-log_all [] l on h = sym (append-nil l.entries)
entries-log_all ((now, e) ∷ es) l on h =
    let kept : (log now e l).entries ≡ l.entries ++ stamped now e ∷ [] = rw (on, h) refl in
    let still : (log now e l).enabled ≡ true = ground (arith, on) in
    let same : (log now e l).max_size ≡ pos 0 = ground (arith, on, h) in
    entries-log_all es (log now e l) still same
    ∙ ap (λ x. x ++ all_stamped es) kept
    ∙ append_assoc l.entries (stamped now e ∷ []) (all_stamped es)

abbrev get_from : ℕ → List Stamped → List Stamped
get_from n es = if leb (length es) n then [] else drop n es

drop-count : (xs ys : List Stamped) → get_from (length xs) (xs ++ ys) ≡ ys
drop-count xs ys = elim (Bool-cases (leb (length (xs ++ ys)) (length xs))) [
  | inl e ↦ rw e (ground (arith, length-append xs ys, none_left ys))
  | inr e ↦ rw e (drop-length xs ys)
]
  where
    none_left : (zs : List Stamped) → length zs ≤ 0 → [] ≡ zs
    none_left [] h = refl
    none_left (z ∷ zs) h = absurd (omega arith)

-- In the unbounded and enabled log that the program has, reading on from the number of the entries
-- that were there gives exactly the entries logged since, in their order.
pub get_entries_since_index-log_all :
    (es : List (ℕ × Stamped)) (l : DnsLogger)
    → l.enabled ≡ true
    → l.max_size ≡ pos 0
    → get_entries_since_index (pos (count l)) (log_all es l) ≡ all_stamped es
unfolding get_entries_since_index count
get_entries_since_index-log_all es l on h =
    rw (entries-log_all es l on h) (drop-count l.entries (all_stamped es))
