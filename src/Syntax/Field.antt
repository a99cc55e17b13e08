-- ===== src/Syntax/Field.antt =====
-- ui/syntax/highlighter.go: the fields and sections of a configuration, and their names.
use amneziawg_windows_client.Common.{◌&&◌, ◌==◌, ◌∷◌, Bool, List, if◌then◌else◌, [], ltb, ℕ}
use amneziawg_windows_client.Common.Text.{codes, Text}
use amneziawg_windows_client.Syntax.{StringSpan, is_caseless_same}

pub data Field : Type 0 where
  interface_section private_key listen_port address dns mtu table : Field
  pre_up post_up pre_down post_down : Field
  jc jmin jmax s1 s2 s3 s4 h1 h2 h3 h4 i1 i2 i3 i4 i5 : Field
  peer_section public_key preshared_key allowed_ips endpoint persistent_keepalive invalid : Field

-- The constants in the order of the source.
abbrev pub field_index : Field → ℕ
field_index interface_section = 0
field_index private_key = 1
field_index listen_port = 2
field_index address = 3
field_index dns = 4
field_index mtu = 5
field_index table = 6
field_index pre_up = 7
field_index post_up = 8
field_index pre_down = 9
field_index post_down = 10
field_index jc = 11
field_index jmin = 12
field_index jmax = 13
field_index s1 = 14
field_index s2 = 15
field_index s3 = 16
field_index s4 = 17
field_index h1 = 18
field_index h2 = 19
field_index h3 = 20
field_index h4 = 21
field_index i1 = 22
field_index i2 = 23
field_index i3 = 24
field_index i4 = 25
field_index i5 = 26
field_index peer_section = 27
field_index public_key = 28
field_index preshared_key = 29
field_index allowed_ips = 30
field_index endpoint = 31
field_index persistent_keepalive = 32
field_index invalid = 33

unfoldable pub section_for_field : Field → Field
section_for_field t =
    if ltb (field_index interface_section) (field_index t)
      && ltb (field_index t) (field_index peer_section)
    then interface_section
    else if ltb (field_index peer_section) (field_index t)
        && ltb (field_index t) (field_index invalid)
    then peer_section
    else invalid

-- The names in the order in which stringSpan.field tries them.
abbrev pub field_names : List (Text × Field)
field_names =
    (codes "PrivateKey", private_key)
    ∷ (codes "ListenPort", listen_port)
    ∷ (codes "Address", address)
    ∷ (codes "DNS", dns)
    ∷ (codes "MTU", mtu)
    ∷ (codes "Table", table)
    ∷ (codes "PublicKey", public_key)
    ∷ (codes "PresharedKey", preshared_key)
    ∷ (codes "AllowedIPs", allowed_ips)
    ∷ (codes "Endpoint", endpoint)
    ∷ (codes "PersistentKeepalive", persistent_keepalive)
    ∷ (codes "PreUp", pre_up)
    ∷ (codes "PostUp", post_up)
    ∷ (codes "PreDown", pre_down)
    ∷ (codes "PostDown", post_down)
    ∷ (codes "Jc", jc)
    ∷ (codes "Jmin", jmin)
    ∷ (codes "Jmax", jmax)
    ∷ (codes "S1", s1)
    ∷ (codes "S2", s2)
    ∷ (codes "S3", s3)
    ∷ (codes "S4", s4)
    ∷ (codes "H1", h1)
    ∷ (codes "H2", h2)
    ∷ (codes "H3", h3)
    ∷ (codes "H4", h4)
    ∷ (codes "I1", i1)
    ∷ (codes "I2", i2)
    ∷ (codes "I3", i3)
    ∷ (codes "I4", i4)
    ∷ (codes "I5", i5)
    ∷ []

module _ (b : Text) where
  unfoldable pub first_field : StringSpan → List (Text × Field) → Field
  first_field sp [] = invalid
  first_field sp ((name, f) ∷ rest) =
      let later = first_field sp rest in if is_caseless_same b sp name then f else later

  -- stringSpan.field
  unfoldable pub field_of : StringSpan → Field
  unfolding first_field
  field_of sp = first_field sp field_names

  -- stringSpan.sectionType
  unfoldable pub section_type : StringSpan → Field
  section_type sp =
      if is_caseless_same b sp (codes "[Peer]")
      then peer_section
      else if is_caseless_same b sp (codes "[Interface]")
      then interface_section
      else invalid

infix 50 ◌=ᶠ◌
abbrev pub ◌=ᶠ◌ : Field → Field → Bool
f =ᶠ g = field_index f == field_index g
