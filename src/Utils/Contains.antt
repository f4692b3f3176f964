-- ===== src/Utils/Contains.antt =====
-- utils/functions.go, isListContainsStr, with strings.Contains.
use ssgo.Prelude.{
  ℕ, ◌≡◌, ◌↔◌, refl, sym, ap, subst, ◌∙◌, inl, inr, Bool, true, false, ◌&&◌, ◌||◌, List, [], ◌∷◌,
  ◌++◌, arith, ◌==◌, Bytes, codes, Bool-cases,
}

unfoldable pub has_prefix : Bytes → Bytes → Bool
has_prefix [] str = true
has_prefix (w ∷ ws) [] = false
has_prefix (w ∷ ws) (c ∷ str) = w == c && has_prefix ws str

-- strings.Contains(str, word)
unfoldable pub contains_str : Bytes → Bytes → Bool
unfolding has_prefix
contains_str [] word = has_prefix word []
contains_str (c ∷ str) word = has_prefix word (c ∷ str) || contains_str str word

unfoldable pub is_list_contains_str : List Bytes → Bytes → Bool
unfolding contains_str
is_list_contains_str [] str = false
is_list_contains_str (word ∷ list) str = contains_str str word || is_list_contains_str list str

abbrev pub exclude_net_interfaces : List Bytes
exclude_net_interfaces =
    codes "lo"
    ∷ codes "tun"
    ∷ codes "docker"
    ∷ codes "veth"
    ∷ codes "br-"
    ∷ codes "vmbr"
    ∷ codes "vnet"
    ∷ codes "kube"
    ∷ []

abbrev pub expect_disk_fs_types : List Bytes
expect_disk_fs_types =
    codes "apfs"
    ∷ codes "ext4"
    ∷ codes "ext3"
    ∷ codes "ext2"
    ∷ codes "f2fs"
    ∷ codes "reiserfs"
    ∷ codes "jfs"
    ∷ codes "btrfs"
    ∷ codes "fuseblk"
    ∷ codes "zfs"
    ∷ codes "simfs"
    ∷ codes "ntfs"
    ∷ codes "fat32"
    ∷ codes "exfat"
    ∷ codes "xfs"
    ∷ codes "fuse.rclone"
    ∷ []

-- A word of the list stands somewhere in the text.
pub data Occurs (word : Bytes) : Bytes → Type 0 where
  at : (before behind : Bytes) → Occurs word (before ++ (word ++ behind))

pub data SomeOccurs (str : Bytes) : List Bytes → Type 0 where
  here : (word : Bytes) (list : List Bytes) → Occurs word str → SomeOccurs str (word ∷ list)
  there : (word : Bytes) (list : List Bytes) → SomeOccurs str list → SomeOccurs str (word ∷ list)

prefix_split :
    (word str : Bytes) → has_prefix word str ≡ true → (behind : Bytes) × (str ≡ word ++ behind)
unfolding has_prefix
prefix_split [] str h = (str, refl)
prefix_split (w ∷ ws) [] h = ground arith
prefix_split (w ∷ ws) (c ∷ str) h =
    let (behind, e) = prefix_split ws str (ground arith) in
    let same : w ≡ c = ground arith in (behind, ap (λ x. x ∷ str) (sym same) ∙ ap (◌∷◌ w) e)

prefix_append : (word behind : Bytes) → has_prefix word (word ++ behind) ≡ true
unfolding has_prefix
prefix_append [] behind = refl
prefix_append (w ∷ ws) behind = ground (arith, prefix_append ws behind)

to_Occurs : (str word : Bytes) → contains_str str word ≡ true → Occurs word str
unfolding contains_str
to_Occurs [] word h =
    let (behind, e) = prefix_split word [] h in subst (Occurs word) (sym e) (at [] behind)
to_Occurs (c ∷ str) word h = elim (Bool-cases (has_prefix word (c ∷ str))) [
  | inl begins ↦
      let (behind, e) = prefix_split word (c ∷ str) begins in
      subst (Occurs word) (sym e) (at [] behind)
  | inr later ↦ shifted c (to_Occurs str word (ground arith))
]
  where
    shifted : (c : ℕ) {str : Bytes} → Occurs word str → Occurs word (c ∷ str)
    shifted c (at before behind) = at (c ∷ before) behind

found_at : (word s : Bytes) → has_prefix word s ≡ true → contains_str s word ≡ true
unfolding contains_str
found_at word [] h = h
found_at word (c ∷ s) h = ground arith

from_Occurs : (word : Bytes) {str : Bytes} → Occurs word str → contains_str str word ≡ true
unfolding contains_str
from_Occurs word (at [] behind) = found_at word (word ++ behind) (prefix_append word behind)
from_Occurs word (at (c ∷ before) behind) = ground (arith, from_Occurs word (at before behind))

-- A text contains a word of the list exactly where one of the words stands somewhere in it, with any
-- bytes before and behind.
pub is_list_contains_str_lem :
    (list : List Bytes) (str : Bytes) → (is_list_contains_str list str ≡ true) ↔ SomeOccurs str list
unfolding is_list_contains_str
is_list_contains_str_lem list str = (to_some list, from_some)
  where
    to_some : (l : List Bytes) → is_list_contains_str l str ≡ true → SomeOccurs str l
    to_some [] h = ground arith
    to_some (word ∷ l) h = elim (Bool-cases (contains_str str word)) [
      | inl found ↦ here word l (to_Occurs str word found)
      | inr other ↦ there word l (to_some l (ground arith))
    ]

    from_some : {l : List Bytes} → SomeOccurs str l → is_list_contains_str l str ≡ true
    from_some (here word l o) = ground (arith, from_Occurs word o)
    from_some (there word l o) = ground (arith, from_some o)
