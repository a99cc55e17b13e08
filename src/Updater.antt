-- ===== src/Updater.antt =====
-- updater/versions.go and updater/signify.go: which update is newer, and which list of updates is
-- believed.
pub mod VersionLaws
pub mod ListLaws
use amneziawg_windows_client.Common.{
  ℕ, Bool, Option, [], some, ◌++◌, leb, ltb, true, ◌&&◌, none, ◌+◌, ◌*◌, ◌∷◌, not, take, false,
  if◌then◌else◌, length, ◌==◌, ◌-◌, List, is_nil, drop, ◌||◌,
}
use amneziawg_windows_client.Common.Text.{
  Text, trim_space, cut_byte, has_suffix, ◌=ᵗ◌, trim_suffix, has_prefix, trim_prefix, split, codes,
}

pub data Compared : Type 0 where
  is_newer : Bool → Compared
  bad_version : Text → Compared

-- The digits' number, with the number before them.
unfoldable pub digits_onto : ℕ → Text → Option ℕ
digits_onto n [] = some n
digits_onto n (c ∷ s) =
    if leb b'0' c && leb c b'9' then digits_onto (n * 10 + (c - b'0')) s else none

-- strconv.ParseUint with base 10 and 16 bits, of a text that is not empty.
unfoldable pub parse_uint16 : Text → Option ℕ
unfolding digits_onto
parse_uint16 s = elim (digits_onto 0 s) [
  | none ↦ none
  | some n ↦ if leb n 65535 then some n else none
]

pub data Part : Type 0 where
  part_value : ℕ → Part
  bad_part : Text → Part

-- One part of a version.
unfoldable pub part_of : Text → Part
unfolding parse_uint16
part_of s = if is_nil s then bad_part (codes "Empty version part") else elim (parse_uint16 s) [
  | none ↦ bad_part (codes "Invalid version integer part")
  | some n ↦ part_value n
]

-- One round of the loop of versionNewerThanUs, at the outcome of the later ones.
abbrev pub compare_part : Part → Part → Compared → Compared
compare_part (bad_part why) ours later = bad_version why
compare_part (part_value c) (bad_part why) later = bad_version why
compare_part (part_value c) (part_value o) later = if c == o then later else is_newer (ltb o c)

-- The loop of versionNewerThanUs, over the candidate's parts and ours.
unfoldable pub compare_parts : List Text → List Text → Compared
compare_parts [] [] = is_newer false
compare_parts [] (o ∷ os) = compare_part (part_value 0) (part_of o) (compare_parts [] os)
compare_parts (c ∷ cs) [] = compare_part (part_of c) (part_value 0) (compare_parts cs [])
compare_parts (c ∷ cs) (o ∷ os) = compare_part (part_of c) (part_of o) (compare_parts cs os)

-- versionNewerThanUs, at version.Number
unfoldable pub version_newer_than_us : Text → Text → Compared
unfolding compare_parts
version_newer_than_us our_version candidate =
    let candidate_parts = split b'.' candidate in
    let our_parts = split b'.' our_version in
    if is_nil candidate_parts || is_nil our_parts
    then bad_version (codes "Empty version")
    else compare_parts candidate_parts our_parts

-- fileList: names with their hashes.
abbrev pub FileList : Type 0
FileList = List (Text × Text)

pub data Candidate : Type 0 where
  update_found : Text → Text → Candidate
  no_update : Candidate
  bad_candidate : Text → Candidate

-- One round of the loop of findCandidate, at the outcome of the later ones.
abbrev pub judge : Text → Text → Compared → Candidate → Candidate
judge name hash (bad_version why) later = bad_candidate why
judge name hash (is_newer true) later = update_found name hash
judge name hash (is_newer false) later = later

-- The loop of findCandidate, with the prefix and the suffix of the names.
unfoldable pub candidate_loop : Text → Text → Text → FileList → Candidate
unfolding version_newer_than_us
candidate_loop our_version prefix suffix [] = no_update
candidate_loop our_version prefix suffix ((name, hash) ∷ rest) =
    let later = candidate_loop our_version prefix suffix rest in
    let candidate = trim_suffix (trim_prefix name prefix) suffix in
    if has_prefix name prefix && has_suffix name suffix
    then (if ltb 128 (length candidate)
        then bad_candidate (codes "Version length is too long")
        else judge name hash (version_newer_than_us our_version candidate) later)
    else later

-- findCandidate, at version.Number and version.Arch()
unfoldable pub find_candidate : Text → Text → FileList → Candidate
unfolding candidate_loop
find_candidate our_version arch candidates =
    candidate_loop our_version (codes "wireguard-" ++ arch ++ codes "-") (codes ".msi") candidates

-- base64.StdEncoding.DecodeString, hex.DecodeString and ed25519.Verify
pub record Crypto : Type 0 where
  pub base64 : Text → Option Text
  pub hex : Text → Option Text
  pub verify : Text → Text → Text → Bool

pub data Listed : Type 0 where
  listed : FileList → Listed
  refused : Text → Listed

-- strings.Cut at two spaces.
unfoldable pub cut_spaces : Text → Option (Text × Text)
cut_spaces [] = none
cut_spaces (c ∷ []) = none
cut_spaces (c ∷ d ∷ s) =
    let later = cut_spaces (d ∷ s) in
    if c == 32 && d == 32
    then some ([], s)
    else elim later [ none ↦ none | some (first, second) ↦ some (c ∷ first, second) ]

-- The entry of a map with texts as keys.
unfoldable pub put_hash : Text → Text → FileList → FileList
put_hash name hash [] = (name, hash) ∷ []
put_hash name hash ((n, h) ∷ rest) =
    if n =ᵗ name then (name, hash) ∷ rest else (n, h) ∷ put_hash name hash rest

module _ (crypto : Crypto) where
  open crypto use {base64, hex, verify}

  -- A line's name and hash.
  abbrev pub add_line : Option (Text × Text) → (Text → Text → Listed) → Listed
  add_line none next = refused (codes "File hash line has too few components")
  add_line (some (first, second)) next = elim (hex first) [
    | none ↦ refused (codes "File hash is invalid base64 or incorrect number of bytes")
    | some hash ↦
        if length hash == 32
        then next second hash
        else refused (codes "File hash is invalid base64 or incorrect number of bytes")
  ]

  -- The loop of readFileList over the lines, with the entries so far.
  unfoldable pub file_loop : List Text → FileList → Listed
  unfolding cut_spaces put_hash
  file_loop [] files = listed files
  file_loop (line ∷ rest) files =
      if is_nil line && is_nil rest
      then listed files
      else add_line (cut_spaces line) (λ name hash. file_loop rest (put_hash name hash files))

  -- The end of readFileList.
  abbrev pub not_empty : Listed → Listed
  not_empty (refused why) = refused why
  not_empty (listed files) =
      if is_nil files then refused (codes "No file hashes found in signed input") else listed files

  -- readFileList behind the signature.
  unfoldable pub read_lines : Text → Listed
  unfolding file_loop
  read_lines message = not_empty (file_loop (split 10 message) [])

  -- readFileList behind the key, at the three lines: is the signature ours and right?
  unfoldable pub check_signature : Text → Text → Text → Text → Listed
  unfolding read_lines
  check_signature key first_line signature message =
      if not (has_prefix first_line (codes "untrusted comment: "))
      then refused (codes "Signature input is missing untrusted comment")
      else elim (base64 signature) [
        | none ↦ refused (codes "Signature input is not valid base64")
        | some bytes ↦
            if not (length bytes == 74) || not (take 10 bytes =ᵗ take 10 key)
            then refused (codes "Signature input bytes are incorrect length, type, or keyid")
            else if not (verify (drop 10 key) message (drop 10 bytes))
            then refused (codes "Signature is invalid")
            else read_lines message
      ]

  -- bytes.SplitN with three parts, and the rest of readFileList: the second cut and the first one.
  abbrev pub check_rest : Text → Text → Text × Option Text → Listed
  check_rest key comment' (signature, none) = refused (codes "Signature input has too few lines")
  check_rest key comment' (signature, some message) = check_signature key comment' signature message

  abbrev pub check_lines : Text → Text × Option Text → Listed
  check_lines key (comment', none) = refused (codes "Signature input has too few lines")
  check_lines key (comment', some rest) = check_rest key comment' (cut_byte 10 rest)

  -- A public key that was decoded: 'E', 'd', the key's number and its 32 bytes.
  abbrev pub is_public_key : Text → Bool
  is_public_key (e ∷ d ∷ key) = length key == 40 && e == b'E' && d == b'd'
  is_public_key _ = false

  -- readFileList, at the text of the public key.
  unfoldable pub read_file_list : Text → Text → Listed
  unfolding check_signature
  read_file_list public_key input = elim (base64 public_key) [
    | none ↦ refused (codes "Invalid public key")
    | some key ↦
        if is_public_key key
        then check_lines key (cut_byte 10 input)
        else refused (codes "Invalid public key")
  ]
