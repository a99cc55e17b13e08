-- ===== src/LocalRecords/LookupLaws.antt =====
-- manager/blocklist.go: what a lookup gives after a record was added or removed.
use amneziawg_windows_client.Common.{
  ◌≡◌, ◌∷◌, true, false, refl, ap, List, is_nil, All, if_both, ◌∙◌, arith, [], Bool, not,
}
use amneziawg_windows_client.Common.Text.{trim_space, equal_fold, Text, has_suffix, to_lower}
use amneziawg_windows_client.Common.Text.Laws.{=ᵗ_self}
use amneziawg_windows_client.LocalRecords.{
  LocalDnsRecord, without_domain, record_domain, save_local_records, add_local_dns_record,
  find_record, load_local_records, lookup_local_dns, update_or_add, saved, remove_local_dns_record,
}
use amneziawg_windows_client.LocalRecords.SavedLaws.{IsStored, load-save_local_records}

-- The domain lies below none of the records' domains.
abbrev pub IsTop : Text → List LocalDnsRecord → Type 0
IsTop domain rs = All (λ r. has_suffix domain (b'.' ∷ to_lower r.domain) ≡ false) rs

find-update_or_add :
    (domain ip : Text) (rs : List LocalDnsRecord)
    → IsTop domain rs
    → find_record domain (update_or_add domain ip rs) ≡ ip
unfolding find_record update_or_add equal_fold
find-update_or_add domain ip [] h = rw (=ᵗ_self (to_lower domain)) refl
find-update_or_add domain ip (r ∷ rs) h = ground (arith, h.0, find-update_or_add domain ip rs h.1)

find-without_domain :
    (domain : Text) (rs : List LocalDnsRecord)
    → IsTop domain rs
    → find_record domain (without_domain domain rs) ≡ []
unfolding find_record without_domain
find-without_domain domain [] h = refl
find-without_domain domain (r ∷ rs) h = ground (arith, h.0, find-without_domain domain rs h.1)

update_or_add-IsStored :
    (domain ip : Text) (rs : List LocalDnsRecord)
    → IsStored (record { domain = domain; ip = ip })
    → All IsStored rs
    → All IsStored (update_or_add domain ip rs)
unfolding update_or_add
update_or_add-IsStored domain ip [] h k = (h, tt)
update_or_add-IsStored domain ip (r ∷ rs) h k =
    if_both (All IsStored) (equal_fold r.domain domain) ((k.0.0, h.1, k.0.2, h.3), k.1)
      (k.0, update_or_add-IsStored domain ip rs h k.1)

without_domain-IsStored :
    (domain : Text) (rs : List LocalDnsRecord)
    → All IsStored rs
    → All IsStored (without_domain domain rs)
unfolding without_domain
without_domain-IsStored domain [] k = tt
without_domain-IsStored domain (r ∷ rs) k =
    if_both (All IsStored) (not (equal_fold r.domain domain))
      (k.0, without_domain-IsStored domain rs k.1) (without_domain-IsStored domain rs k.1)

-- Where the saved records, the domain and the address hold no byte that the format gives a meaning,
-- the address is one that net.ParseIP takes, and the domain lies below no record's: adding a record
-- saves a text in which the domain is found with the new address.
pub lookup-add_local_dns_record :
    (valid : Text → Bool) (domain ip stored : Text)
    → All IsStored (load_local_records stored)
    → IsStored (record { domain = record_domain domain; ip = trim_space ip })
    → valid (trim_space ip) ≡ true
    → IsTop (record_domain domain) (load_local_records stored)
    → (s : Text) × (add_local_dns_record valid domain ip stored ≡ saved s)
      × (lookup_local_dns domain s ≡ trim_space ip)
unfolding add_local_dns_record lookup_local_dns
lookup-add_local_dns_record valid domain ip stored k h v top =
    let rs = update_or_add (record_domain domain) (trim_space ip) (load_local_records stored) in
    let read = load-save_local_records rs (
      update_or_add-IsStored (record_domain domain) (trim_space ip) (load_local_records stored) h
        k) in
    (
      save_local_records rs,
      ground (arith, h.0, h.1, v),
      ap (find_record (record_domain domain)) read
          ∙ find-update_or_add (record_domain domain) (trim_space ip) (load_local_records stored)
              top,
    )

-- Under the same conditions on the saved records and the domain, removing a record saves a text in
-- which the domain is not found.
pub lookup-remove_local_dns_record :
    (domain stored : Text)
    → All IsStored (load_local_records stored)
    → is_nil (record_domain domain) ≡ false
    → IsTop (record_domain domain) (load_local_records stored)
    → (s : Text) × (remove_local_dns_record domain stored ≡ saved s)
      × (lookup_local_dns domain s ≡ [])
unfolding remove_local_dns_record lookup_local_dns
lookup-remove_local_dns_record domain stored k h top =
    let rs = without_domain (record_domain domain) (load_local_records stored) in
    let read =
      load-save_local_records rs
        (without_domain-IsStored (record_domain domain) (load_local_records stored) k) in
    (
      save_local_records rs,
      ground (arith, h),
      ap (find_record (record_domain domain)) read
          ∙ find-without_domain (record_domain domain) (load_local_records stored) top,
    )
