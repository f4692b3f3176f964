-- ===== src/Service/FindKey.antt =====
-- The search for the access key by trial decryption: findEntry and findAccessKey of service/tcp.go,
-- and findAccessKeyUDP of service/udp.go.
pub mod Search
pub mod Found
use ssgo.Prelude.{
  ℕ, ◌+◌, ◌*◌, Bool, true, false, List, [], ◌∷◌, ◌++◌, Option, none, some, ltb, if◌then◌else◌,
  Bytes, length, take, drop,
}
use ssgo.Io.{
  Error, Result, ok, err, ◌>>=◌, panic, new, wrap, could_not_find_valid_cipher,
  reading_header_failed, could_not_find_valid_tcp_cipher, Source, read_full,
}
use ssgo.Shadowsocks.Crypto.{Crypto}
use ssgo.Shadowsocks.Cipher.{Cipher, salt_size, tag_size, decrypt_once}
use ssgo.Shadowsocks.Packet.{unpack}
use ssgo.Net.{Ip}
use ssgo.Service.CipherList.{CipherEntry, Element, snapshot_for_client_ip, mark_used_by_client_ip}

abbrev pub bytes_for_key_finding : ℕ
bytes_for_key_finding = 50

abbrev pub server_udp_buffer_size : ℕ
server_udp_buffer_size = 64 * 1024

abbrev pub succeeds {ℓ} : {A : Type ℓ} → Result A → Bool
succeeds (ok a) = true
succeeds (err e) = false

module _ (crypto : Crypto) where
  -- The trial decryption of a connection's first length block, into two bytes.
  unfoldable pub decrypts_length : Bytes → Cipher → Bool
  decrypts_length first_bytes cipher = succeeds (
      decrypt_once crypto cipher (take (salt_size cipher) first_bytes) [] 2
        (take (2 + tag_size cipher) (drop (salt_size cipher) first_bytes)))

  -- findEntry: the first element whose cipher decrypts; slicing beyond the bytes read panics.
  unfoldable pub find_entry : Bytes → List Element → Result (Option Element)
  unfolding decrypts_length salt_size tag_size
  find_entry first_bytes [] = ok none
  find_entry first_bytes (elt ∷ elts) =
      if ltb (length first_bytes) (salt_size elt.entry.cipher + (2 + tag_size elt.entry.cipher))
      then err panic
      else if decrypts_length first_bytes elt.entry.cipher
      then ok (some elt)
      else find_entry first_bytes elts

  -- findAccessKey: the entry, the reader with the bytes read put back, and the salt; the list of
  -- keys afterwards. The reader after a failure is of no use to the caller.
  abbrev pub with_entry :
      Option Ip
      → List Element
      → Bytes
      → Source
      → Result (Option Element)
      → Result (CipherEntry × Source × Bytes) × List Element
  with_entry client_ip cl first_bytes rest (err e) = (err e, cl)
  with_entry client_ip cl first_bytes rest (ok none) =
      (err (new could_not_find_valid_tcp_cipher), cl)
  with_entry client_ip cl first_bytes rest (ok (some elt)) = (
    ok (elt.entry, (first_bytes, none) ∷ rest, take (salt_size elt.entry.cipher) first_bytes),
    mark_used_by_client_ip cl elt.key client_ip,
  )

  abbrev pub with_first_bytes :
      Option Ip
      → List Element
      → Result Bytes × Source
      → Result (CipherEntry × Source × Bytes) × List Element
  with_first_bytes client_ip cl (err e, rest) = (err (wrap reading_header_failed e), cl)
  with_first_bytes client_ip cl (ok first_bytes, rest) =
      with_entry client_ip cl first_bytes rest
        (find_entry first_bytes (snapshot_for_client_ip cl client_ip))

  unfoldable pub find_access_key :
      Source → Option Ip → List Element → Result (CipherEntry × Source × Bytes) × List Element
  find_access_key client_reader client_ip cl =
      with_first_bytes client_ip cl (read_full bytes_for_key_finding client_reader)

  -- The loop of findAccessKeyUDP over the snapshot.
  unfoldable pub unpack_first : Bytes → List Element → Option (Bytes × Element)
  unpack_first src [] = none
  unpack_first src (e ∷ es) =
      elim (unpack crypto (some server_udp_buffer_size) src e.entry.cipher) [
        | ok buf ↦ some (buf, e)
        | err x ↦ unpack_first src es
      ]

  abbrev pub with_unpacked :
      Option Ip
      → List Element
      → Option (Bytes × Element)
      → Result (Bytes × Bytes × Cipher) × List Element
  with_unpacked client_ip cl none = (err (new could_not_find_valid_cipher), cl)
  with_unpacked client_ip cl (some (buf, e)) =
      (ok (buf, e.entry.id, e.entry.cipher), mark_used_by_client_ip cl e.key client_ip)

  unfoldable pub find_access_key_udp :
      Option Ip → Bytes → List Element → Result (Bytes × Bytes × Cipher) × List Element
  unfolding unpack_first
  find_access_key_udp client_ip src cl =
      with_unpacked client_ip cl (unpack_first src (snapshot_for_client_ip cl client_ip))
