-- ===== src/Tests/Updates.antt =====
-- updater/versions.go and updater/signify.go at concrete inputs.
use amneziawg_windows_client.Common.{Any, [], ◌∷◌, ◌≡◌, true, some, ◌++◌, Bool, refl, ◌↔◌, take}
use amneziawg_windows_client.Common.Text.{
  codes, Text, split, trim_suffix, has_prefix, cut_byte, ◌=ᵗ◌, trim_prefix, has_suffix,
}
use amneziawg_windows_client.Updater.{
  Crypto, read_file_list, find_candidate, update_found, is_newer, FileList, version_newer_than_us,
  listed, part_of,
}
use amneziawg_windows_client.Updater.ListLaws.{read_file_list-IsSigned, IsSigned}
use amneziawg_windows_client.Updater.VersionLaws.{
  IsLater, version_newer_than_us_iff, Parses, find_candidate-IsUpdate, IsUpdate,
}

-- Texts that stand for their own encodings, and a signature that starts with its key.
abbrev plain : Crypto
plain = record {
  base64 = λ text. some text;
  hex = λ text. some text;
  verify = λ key message signature. take 32 signature =ᵗ key;
}

-- 32 bytes.
abbrev some_hash : Text
some_hash = codes "0123456789abcdef0123456789abcdef"

abbrev some_key : Text
some_key = codes "Ed12345678" ++ some_hash

abbrev some_signature : Text
some_signature = codes "Ed12345678" ++ some_hash ++ some_hash

abbrev some_list : Text
some_list = some_hash ++ codes "  wireguard-amd64-1.1.msi" ++ 10 ∷ []

abbrev some_input : Text
some_input = codes "untrusted comment: list" ++ 10 ∷ (some_signature ++ 10 ∷ some_list)

abbrev some_files : FileList
some_files = (codes "wireguard-amd64-1.1.msi", some_hash) ∷ []

some_input-listed : read_file_list plain some_key some_input ≡ listed some_files
unfolding read_file_list cut_byte has_prefix ◌=ᵗ◌ split
some_input-listed = refl

read_file_list-IsSigned_example : IsSigned plain some_key some_input some_files
read_file_list-IsSigned_example =
    read_file_list-IsSigned plain some_key some_input some_files some_input-listed

candidate-Parses : Parses (split b'.' (codes "1.1")) (1 ∷ 1 ∷ [])
unfolding split part_of
candidate-Parses = (refl, (refl, tt))

ours-Parses : Parses (split b'.' (codes "1.0.4")) (1 ∷ 0 ∷ 4 ∷ [])
unfolding split part_of
ours-Parses = (refl, (refl, (refl, tt)))

version_newer_than_us_iff_example :
    (b : Bool) × (version_newer_than_us (codes "1.0.4") (codes "1.1") ≡ is_newer b)
    × ((b ≡ true) ↔ IsLater (1 ∷ 1 ∷ []) (1 ∷ 0 ∷ 4 ∷ []))
version_newer_than_us_iff_example =
    version_newer_than_us_iff (codes "1.0.4") (codes "1.1") (1 ∷ 1 ∷ []) (1 ∷ 0 ∷ 4 ∷ [])
      candidate-Parses ours-Parses

found_update :
    find_candidate (codes "1.0.4") (codes "amd64") some_files
    ≡ update_found (codes "wireguard-amd64-1.1.msi") some_hash
unfolding find_candidate has_prefix has_suffix trim_prefix trim_suffix ◌=ᵗ◌ split part_of
found_update = refl

find_candidate-IsUpdate_example :
    IsUpdate
      (codes "1.0.4")
      (codes "wireguard-" ++ codes "amd64" ++ codes "-")
      (codes ".msi")
      (codes "wireguard-amd64-1.1.msi")
    × Any
        (λ (f : Text × Text). (f.0 ≡ codes "wireguard-amd64-1.1.msi") × (f.1 ≡ some_hash))
        some_files
find_candidate-IsUpdate_example =
    find_candidate-IsUpdate (codes "1.0.4") (codes "amd64") some_files
      (codes "wireguard-amd64-1.1.msi") some_hash found_update
