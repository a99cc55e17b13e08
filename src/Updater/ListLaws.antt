-- ===== src/Updater/ListLaws.antt =====
-- updater/signify.go and versions.go: a list that is accepted was signed, and the update that is
-- chosen stands in it.
use amneziawg_windows_client.Common.{
  All, ◌∷◌, ◌≡◌, [], if_both, length, List, Any, some, ==_iff, ◌≢◌, inr, option_cases, is_nil, inl,
  Option, true, false, ◌==◌, ap, drop, if_cases, ◌&&◌, none, refl, take, ◌||◌, not, arith,
}
use amneziawg_windows_client.Common.Text.{Text, ◌=ᵗ◌, split, cut_byte, has_prefix, codes}
use amneziawg_windows_client.Common.Text.Laws.{=ᵗ_iff}
use amneziawg_windows_client.Updater.{
  put_hash, FileList, file_loop, listed, Crypto, cut_spaces, refused, add_line, Listed,
  check_signature, read_lines, check_rest, check_lines, not_empty, is_public_key, read_file_list,
}
use mathlib.Core.Path.{subst}

-- What a line of the list says: a hash in hexadecimal digits, two spaces, and the name.
abbrev pub IsLine : Crypto → Text × Text → Text → Type 0
IsLine crypto (name, hash) line =
    (first : Text) × (cut_spaces line ≡ some (first, name))
    × (crypto.hex first ≡ some hash)
    × (length hash ≡ 32)

-- Every entry stands on a line.
abbrev pub IsFrom : Crypto → List Text → FileList → Type 0
IsFrom crypto lines files = All (λ entry. Any (IsLine crypto entry) lines) files

not_listed : (why : Text) (files : FileList) → refused why ≢ listed files
not_listed why files e = subst is_refused e tt
  where
    is_refused : Listed → Type 0
    is_refused (refused why) = Unit
    is_refused (listed files) = ⊥

entries : {files found : FileList} → listed files ≡ listed found → files ≡ found
entries e = ap entries_of e
  where
    entries_of : Listed → FileList
    entries_of (refused why) = []
    entries_of (listed files) = files

module _ (crypto : Crypto) where
  open crypto use {base64, hex, verify}

  put_hash-IsFrom :
      (lines : List Text) (name hash : Text) (files : FileList)
      → Any (IsLine crypto (name, hash)) lines
      → IsFrom crypto lines files
      → IsFrom crypto lines (put_hash name hash files)
  unfolding put_hash
  put_hash-IsFrom lines name hash [] here h = (here, tt)
  put_hash-IsFrom lines name hash ((n, old) ∷ rest) here h =
      if_both (IsFrom crypto lines) (n =ᵗ name) (here, h.1)
        (h.0, put_hash-IsFrom lines name hash rest here h.1)

  add_line-listed :
      (found : FileList) (line : Text) (o : Option (Text × Text)) (next : Text → Text → Listed)
      (Goal : Type 0)
      → cut_spaces line ≡ o
      → ((name hash : Text)
          → IsLine crypto (name, hash) line
          → next name hash ≡ listed found
          → Goal)
      → add_line crypto o next ≡ listed found
      → Goal
  add_line-listed found line none next Goal cut g = λ e. absurd (not_listed _ _ e)
  add_line-listed found line (some (first, name)) next Goal cut g =
      let P : Listed → Type 0 = λ r. r ≡ listed found → Goal in
      option_cases P (hex first) (λ no e. absurd (not_listed _ _ e))
        (λ hash decoded.
          if_cases P (length hash == 32)
            (λ long. g name hash (first, cut, decoded, (==_iff _ _).0 long))
            (λ short e. absurd (not_listed _ _ e)))

  -- The lines that are left are lines of the list.
  file_loop-IsFrom :
      (lines rest : List Text) (files found : FileList)
      → ((entry : Text × Text) → Any (IsLine crypto entry) rest → Any (IsLine crypto entry) lines)
      → IsFrom crypto lines files
      → file_loop crypto rest files ≡ listed found
      → IsFrom crypto lines found
  unfolding file_loop
  file_loop-IsFrom lines [] files found within h = λ e. subst (IsFrom crypto lines) (entries e) h
  file_loop-IsFrom lines (line ∷ rest) files found within h =
      let P : Listed → Type 0 = λ r. r ≡ listed found → IsFrom crypto lines found in
      if_both P (is_nil line && is_nil rest) (λ e. subst (IsFrom crypto lines) (entries e) h)
        (add_line-listed found line (cut_spaces line) _ (IsFrom crypto lines found) refl
          (λ name hash is.
            file_loop-IsFrom lines rest (put_hash name hash files) found
              (λ entry later. within entry (inr later))
              (put_hash-IsFrom lines name hash files (within (name, hash) (inl is)) h)))

  -- An input whose third part is signed by its second one with the key, and lists the files.
  abbrev pub IsSigned : Text → Text → FileList → Type 0
  IsSigned key_text input found =
      (key : Text) × (comment' : Text) × (rest : Text) × (signature : Text) × (message : Text)
      × (bytes : Text) × (base64 key_text ≡ some key)
      × (cut_byte 10 input ≡ (comment', some rest))
      × (cut_byte 10 rest ≡ (signature, some message))
      × (base64 signature ≡ some bytes)
      × (take 10 bytes ≡ take 10 key)
      × (verify (drop 10 key) message (drop 10 bytes) ≡ true)
      × IsFrom crypto (split 10 message) found
      × (is_nil found ≡ false)

  read_lines-IsFrom :
      (message : Text) (found : FileList)
      → read_lines crypto message ≡ listed found
      → IsFrom crypto (split 10 message) found × (is_nil found ≡ false)
  unfolding read_lines
  read_lines-IsFrom message found = go (file_loop crypto (split 10 message) []) refl
    where
      go :
          (r : Listed)
          → file_loop crypto (split 10 message) [] ≡ r
          → not_empty crypto r ≡ listed found
          → IsFrom crypto (split 10 message) found × (is_nil found ≡ false)
      go (refused why) e = λ done. absurd (not_listed _ _ done)
      go (listed files) e =
          let P : Listed → Type 0 = λ r.
            r ≡ listed found → IsFrom crypto (split 10 message) found × (is_nil found ≡ false) in
          if_cases P (is_nil files) (λ empty done. absurd (not_listed _ _ done))
            (λ full done.
              let same = entries done in
              (
                subst (IsFrom crypto (split 10 message)) same (
                    file_loop-IsFrom (split 10 message) (split 10 message) [] files (λ entry h. h)
                      tt e),
                subst (λ (fs : FileList). is_nil fs ≡ false) same full,
              ))

  check_signature-listed :
      (key comment' signature message : Text) (found : FileList)
      → check_signature crypto key comment' signature message ≡ listed found
      → (bytes : Text) × (base64 signature ≡ some bytes)
        × (take 10 bytes ≡ take 10 key)
        × (verify (drop 10 key) message (drop 10 bytes) ≡ true)
        × (read_lines crypto message ≡ listed found)
  unfolding check_signature
  check_signature-listed key comment' signature message found =
      let P : Listed → Type 0 = λ r.
        r ≡ listed found
        → (bytes : Text) × (base64 signature ≡ some bytes)
          × (take 10 bytes ≡ take 10 key)
          × (verify (drop 10 key) message (drop 10 bytes) ≡ true)
          × (read_lines crypto message ≡ listed found) in
      let no : (why : Text) → P (refused why) = λ why e. absurd (not_listed _ _ e) in
      if_both P (not (has_prefix comment' (codes "untrusted comment: "))) (no _) (
        option_cases P (base64 signature) (λ _. no _)
          (λ bytes decoded.
            if_cases P (not (length bytes == 74) || not (take 10 bytes =ᵗ take 10 key)) (λ _. no _)
              (λ right.
                let same : (take 10 bytes =ᵗ take 10 key) ≡ true = ground (arith, right) in
                if_cases P (not (verify (drop 10 key) message (drop 10 bytes))) (λ _. no _)
                  (λ valid e. (bytes, decoded, (=ᵗ_iff _ _).0 same, ground (arith, valid), e)))))

  check_rest-listed :
      (key comment' : Text) (cut : Text × Option Text) (found : FileList)
      → check_rest crypto key comment' cut ≡ listed found
      → (signature : Text) × (message : Text) × (cut ≡ (signature, some message))
        × (check_signature crypto key comment' signature message ≡ listed found)
  check_rest-listed key comment' (signature, none) found e = absurd (not_listed _ _ e)
  check_rest-listed key comment' (signature, some message) found e = (signature, message, refl, e)

  check_lines-listed :
      (key : Text) (cut : Text × Option Text) (found : FileList)
      → check_lines crypto key cut ≡ listed found
      → (comment' : Text) × (rest : Text) × (cut ≡ (comment', some rest))
        × (check_rest crypto key comment' (cut_byte 10 rest) ≡ listed found)
  check_lines-listed key (comment', none) found e = absurd (not_listed _ _ e)
  check_lines-listed key (comment', some rest) found e = (comment', rest, refl, e)

  -- A list of updates is accepted only where the third part of the input carries, in the second one,
  -- a signature that the public key verifies and that has the key's type and number; it is not
  -- empty, and each name and each hash, of 32 bytes, stand together on a line of the signed part.
  pub read_file_list-IsSigned :
      (key_text input : Text) (found : FileList)
      → read_file_list crypto key_text input ≡ listed found
      → IsSigned key_text input found
  unfolding read_file_list
  read_file_list-IsSigned key_text input found =
      let P : Listed → Type 0 = λ r. r ≡ listed found → IsSigned key_text input found in
      option_cases P (base64 key_text) (λ _ e. absurd (not_listed _ _ e))
        (λ key known.
          if_both P (is_public_key crypto key)
            (λ e.
              let (comment', rest, cut, e1) = check_lines-listed key (cut_byte 10 input) found e in
              let (signature, message, cut', e2) =
                check_rest-listed key comment' (cut_byte 10 rest) found e1 in
              let (bytes, decoded, same, valid, read) =
                check_signature-listed key comment' signature message found e2 in
              let (from, full) = read_lines-IsFrom message found read in
              (
                key, comment', rest, signature, message, bytes, known, cut, cut', decoded, same,
                valid, from, full,
              ))
            (λ e. absurd (not_listed _ _ e)))
