-- ===== src/LocalRecords.antt =====
-- manager/blocklist.go: local DNS records. They are kept as one text, which every function reads
-- anew: services.UserKeyString reads it, and services.SetUserKeyString writes it.
pub mod SavedLaws
pub mod LookupLaws
use amneziawg_windows_client.Common.{
  List, [], ◌∷◌, ◌++◌, map, Bool, not, Option, none, some, if◌then◌else◌, is_nil, ◌||◌,
}
use amneziawg_windows_client.Common.Text.{
  trim_space, split, Text, has_suffix, equal_fold, codes, to_lower, trim_prefix, trim_suffix,
  cut_byte, join,
}

-- LocalDNSRecord
pub record LocalDnsRecord : Type 0 where
  pub domain : Text
  pub ip : Text

-- One item of the saved text: `domain=ip`, with blanks around the parts.
unfoldable pub parse_item : Text → Option LocalDnsRecord
parse_item it =
    let it' = trim_space it in
    let (left, right) = cut_byte b'=' it' in
    if is_nil it' then none else elim right [
      | none ↦ none
      | some r ↦
          if is_nil (trim_space left) || is_nil (trim_space r)
          then none
          else some (record { domain = trim_space left; ip = trim_space r })
    ]

unfoldable pub parse_items : List Text → List LocalDnsRecord
parse_items [] = []
parse_items (it ∷ rest) = elim (parse_item it) [
  | none ↦ parse_items rest
  | some r ↦ r ∷ parse_items rest
]

-- loadLocalRecordsLocked, from the saved text.
unfoldable pub load_local_records : Text → List LocalDnsRecord
unfolding parse_items
load_local_records s = if is_nil s then [] else parse_items (split b';' s)

unfoldable pub print_record : LocalDnsRecord → Text
print_record r = r.domain ++ (b'=' ∷ r.ip)

-- saveLocalRecordsLocked: the text that is saved.
unfoldable pub save_local_records : List LocalDnsRecord → Text
save_local_records rs = join b';' (map print_record rs)

-- What the three functions make of their argument.
unfoldable pub record_domain : Text → Text
record_domain domain =
    trim_suffix (trim_prefix (trim_space (to_lower domain)) (codes "*.")) (codes ".")

-- The loop of AddLocalDNSRecord, and the record that is added where no domain is the same.
unfoldable pub update_or_add : Text → Text → List LocalDnsRecord → List LocalDnsRecord
update_or_add domain ip [] = record { domain = domain; ip = ip } ∷ []
update_or_add domain ip (r ∷ rest) =
    if equal_fold r.domain domain
    then record r { ip = ip } ∷ rest
    else r ∷ update_or_add domain ip rest

-- The text that is given to SetUserKeyString, whose error comes back, or an error before that.
pub data Change : Type 0 where
  refused : Text → Change
  saved : Text → Change
  unchanged : Change

-- AddLocalDNSRecord; `valid` tells the texts that net.ParseIP takes.
unfoldable pub add_local_dns_record : (Text → Bool) → Text → Text → Text → Change
add_local_dns_record valid domain ip stored =
    let domain' = record_domain domain in
    let ip' = trim_space ip in
    if is_nil domain'
    then refused (codes "domain cannot be empty")
    else if is_nil ip'
    then refused (codes "IP address cannot be empty")
    else if not (valid ip')
    then refused (codes "invalid IP address: " ++ ip')
    else saved (save_local_records (update_or_add domain' ip' (load_local_records stored)))

unfoldable pub without_domain : Text → List LocalDnsRecord → List LocalDnsRecord
without_domain domain [] = []
without_domain domain (r ∷ rest) =
    let later = without_domain domain rest in
    if not (equal_fold r.domain domain) then r ∷ later else later

-- RemoveLocalDNSRecord
unfoldable pub remove_local_dns_record : Text → Text → Change
remove_local_dns_record domain stored =
    let domain' = record_domain domain in
    if is_nil domain'
    then unchanged
    else saved (save_local_records (without_domain domain' (load_local_records stored)))

-- The loop of LookupLocalDNS.
unfoldable pub find_record : Text → List LocalDnsRecord → Text
find_record domain [] = []
find_record domain (r ∷ rest) =
    let later = find_record domain rest in
    if equal_fold r.domain domain || has_suffix domain (b'.' ∷ to_lower r.domain)
    then r.ip
    else later

-- LookupLocalDNS; the empty text is no record.
unfoldable pub lookup_local_dns : Text → Text → Text
lookup_local_dns domain stored = find_record (record_domain domain) (load_local_records stored)
