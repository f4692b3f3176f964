-- ===== src/Server/Users.antt =====
-- cmd/quick_ss/main.go, CheckUser: one tick of its loop, which asks for the users and reloads the
-- ports where they have changed. The hash function fnv32a and the request are parameters.
pub mod Settles
use ssgo.Prelude.{
  ℕ, Bool, true, false, not, ◌&&◌, ◌||◌, List, [], ◌∷◌, ◌++◌, Option, none, some, ◌==◌,
  if◌then◌else◌, Bytes, bytes_equal, length,
}
use ssgo.Io.{Error, Result, ok, err}
use ssgo.Service.CipherList.{CipherEntry}
use ssgo.Server.{Key, Ports, Sockets, do_run}

-- `==` on the struct.
unfoldable pub key_equal : Key → Key → Bool
key_equal a b =
    bytes_equal a.id b.id
    && (a.port == b.port)
    && bytes_equal a.cipher b.cipher
    && bytes_equal a.secret b.secret

-- The map that CheckUser keeps.
abbrev pub Hashes : Type 0
Hashes = List (Key × ℕ)

unfoldable pub hash_of : Key → Hashes → Option ℕ
hash_of key [] = none
hash_of key ((k, v) ∷ hash) = if key_equal k key then some v else hash_of key hash

unfoldable pub put_hash : Key → ℕ → Hashes → Hashes
put_hash key v [] = (key, v) ∷ []
put_hash key v ((k, old) ∷ hash) =
    if key_equal k key then (k, v) ∷ hash else (k, old) ∷ put_hash key v hash

abbrev pub differs : ℕ → Option ℕ → Bool
differs hashkey none = true
differs hashkey (some vk) = not (vk == hashkey)

module _ (fnv : Bytes → ℕ) where
  -- Key.Hash.
  abbrev pub key_hash : Key → ℕ
  key_hash p = fnv (p.id ++ p.secret)

  -- The loop over the users, with what doNew is before it.
  unfoldable pub check_keys : List Key → Hashes → Bool → Hashes × Bool
  unfolding hash_of put_hash
  check_keys [] hash do_new = (hash, do_new)
  check_keys (key ∷ keys) hash do_new =
      check_keys keys (put_hash key (key_hash key) hash)
        (do_new || differs (key_hash key) (hash_of key hash))

  unfoldable pub check_users : List Key → Hashes → Hashes × Bool
  unfolding check_keys
  check_users keys hash =
      if length keys == length hash then check_keys keys hash false else check_keys keys [] true

  -- The ports that a doRun leaves, if it does not panic.
  abbrev pub reloaded : Hashes → Option (Ports × Option Error) → Option (Hashes × Ports)
  reloaded hash none = none
  reloaded hash (some (ports, e)) = some (hash, ports)

  abbrev pub with_users :
      Sockets
      → (Key → Result CipherEntry)
      → List ℕ
      → Ports
      → List Key
      → Hashes × Bool
      → Option (Hashes × Ports)
  with_users net make order ports keys (hash, false) = some (hash, ports)
  with_users net make order ports keys (hash, true) =
      reloaded hash (do_run net make keys order ports)

  -- A tick; the error of doRun is dropped, and its panic, `none`, is the program's.
  unfoldable pub check_user :
      Sockets
      → (Key → Result CipherEntry)
      → List ℕ
      → Result (List Key)
      → Hashes
      → Ports
      → Option (Hashes × Ports)
  unfolding check_users do_run
  check_user net make order (err e) hash ports = some (hash, ports)
  check_user net make order (ok keys) hash ports =
      with_users net make order ports keys (check_users keys hash)
