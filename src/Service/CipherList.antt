-- ===== src/Service/CipherList.antt =====
-- service/cipher_list.go: the access keys of a port, kept in order of use. A list element is a
-- CipherEntry with the identity that `*list.Element` has.
pub mod Order
use ssgo.Prelude.{
  ℕ, ◌+◌, ◌-◌, ◌≤◌, Bool, true, false, not, ◌&&◌, ◌||◌, List, [], ◌∷◌, ◌++◌, Option, none, some,
  map, ◌==◌, leb, ltb, if◌then◌else◌, Bytes, length, bytes_equal, take, drop, replicate,
}
use ssgo.Net.{Ip, ip_equal}
use ssgo.Shadowsocks.Crypto.{Crypto}
use ssgo.Shadowsocks.Cipher.{Cipher, salt_size}
use ssgo.Service.ServerSalt.{
  ServerSaltGenerator, random_server_salt_generator, new_server_salt_generator,
  server_salt_mark_len,
}

abbrev pub min_salt_entropy : ℕ
min_salt_entropy = 16

pub record CipherEntry : Type 0 where
  pub id : Bytes
  pub cipher : Cipher
  pub salt_generator : ServerSaltGenerator
  pub last_client_ip : Option Ip

-- MakeCipherEntry: salts are marked if enough randomness stays.
unfoldable pub make_cipher_entry : Crypto → Bytes → Cipher → Bytes → CipherEntry
make_cipher_entry crypto id cipher secret = record {
  id = id;
  cipher = cipher;
  salt_generator =
      if leb (min_salt_entropy + server_salt_mark_len) (salt_size cipher)
      then new_server_salt_generator crypto secret
      else random_server_salt_generator;
  last_client_ip = none;
}

pub record Element : Type 0 where
  pub key : ℕ
  pub entry : CipherEntry

-- clientIP != nil && clientIP.Equal(c.lastClientIP); Equal of a nil address compares lengths.
unfoldable pub matches_ip : Element → Option Ip → Bool
unfolding ip_equal
matches_ip e none = false
matches_ip e (some ip) = ip_equal ip (elim e.entry.last_client_ip [ none ↦ [] | some last ↦ last ])

-- One pass of SnapshotForClientIP over the list: `array` is the array up to the index `i`, which
-- is its length.
unfoldable pub pass : (Element → Bool) → List Element → List Element → List Element
pass test array [] = array
pass test array (e ∷ es) = pass test (if test e then array ++ (e ∷ []) else array) es

unfoldable pub snapshot_for_client_ip : List Element → Option Ip → List Element
unfolding pass matches_ip
snapshot_for_client_ip cl ip =
    pass (λ e. not (matches_ip e ip)) (pass (λ e. matches_ip e ip) [] cl) cl

-- Without the element of that identity.
unfoldable pub remove : ℕ → List Element → List Element
remove key [] = []
remove key (e ∷ es) = if e.key == key then es else e ∷ remove key es

unfoldable pub find : ℕ → List Element → Option Element
find key [] = none
find key (e ∷ es) = if e.key == key then some e else find key es

-- MoveToFront does nothing with an element of another list, as after an Update.
unfoldable pub mark_used_by_client_ip : List Element → ℕ → Option Ip → List Element
unfolding remove find
mark_used_by_client_ip cl key ip = elim (find key cl) [
  | none ↦ cl
  | some e ↦ record e { entry = record (e.entry) { last_client_ip = ip } } ∷ remove key cl
]

-- Update replaces the list.
unfoldable pub update : List Element → List Element → List Element
update cl src = src
