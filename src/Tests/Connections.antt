-- ===== src/Tests/Connections.antt =====
-- TCP connections at concrete inputs.
use ssgo.Prelude.{
  ◌≡◌, ◌∙◌, refl, sym, inl, List, [], ◌∷◌, ◌++◌, Option, none, some, arith, codes, replicate,
  bytes_equal, ap, true, false,
}
use ssgo.Io.{read, write, Result, ok, err, external, read_full}
use ssgo.Net.{Ip, ip_equal, Status, all_ok}
use ssgo.Shadowsocks.Cipher.{salt_size, tag_size, new_aead, decrypt_once}
use ssgo.Shadowsocks.Salt.{random_get_salt}
use ssgo.Shadowsocks.Reader.{read_chunk, write_to, new_chunk_reader}
use ssgo.Shadowsocks.Writer.{transfer, flush, read_from, new_shadowsocks_writer, set_salt_generator}
use ssgo.Service.Replay.{ReplayCache, add, add_hash, pre_hash}
use ssgo.Service.Replay.History.{Tracks, add_all}
use ssgo.Service.ServerSalt.{random_server_salt_generator}
use ssgo.Service.CipherList.{
  Element, snapshot_for_client_ip, pass, matches_ip, mark_used_by_client_ip, find, remove,
}
use ssgo.Service.FindKey.{find_access_key, find_entry, decrypts_length, bytes_for_key_finding}
use ssgo.Service.FindKey.Found.{IsKeyed}
use ssgo.Service.Tcp.{
  Target, Client, Env, Shared, Handled, Outcome, panicked, handled, handle_connection, check_replay,
  proxy, relay, dial_target,
}
use ssgo.Service.Tcp.Total.{handle_connection_total}
use ssgo.Service.Tcp.Safety.{HeedsControl, Reaches, handle_connection-Reaches}
use ssgo.Service.Tcp.Replayed.{IsRefusedReplay, replayed_connection_refused}
use ssgo.Tests.Toy.{toy, toy_tag, toy_cipher, toy_random}

abbrev keys : List Element
keys =
    record {
      key = 1;
      entry = record {
        id = codes "id";
        cipher = toy_cipher 5;
        salt_generator = random_server_salt_generator;
        last_client_ip = none;
      };
    }
    ∷ []

abbrev home : Ip
home = 10 ∷ 0 ∷ 0 ∷ 1 ∷ []

abbrev site : Target
site = record {
  ip = 8 ∷ 8 ∷ 8 ∷ 8 ∷ [];
  input = [];
  output = record { written = []; outcomes = [] };
}

abbrev site_or : Option Status → Result Target
site_or none = ok site
site_or (some x) = err (external 1)

-- Every connection asks for the one site, which the validator allows.
abbrev env : Env
env = record {
  now = 1000;
  rnd = toy_random;
  max_tag_size = 16;
  is_timeout = λ e. false;
  client_first = true;
  validator = λ ip. none;
  read_addr = λ c. (c, ok (codes "site"));
  addr_text = λ a. a;
  dial = λ control addr. (some site.ip, site_or (control site.ip));
}

env-HeedsControl : HeedsControl env
env-HeedsControl control addr last t h = by_answer (control site.ip) refl h
  where
    by_answer :
        (o : Option Status)
        → control site.ip ≡ o
        → ◌≡◌ {A = Option Ip × Result Target} (some site.ip, site_or o) (last, ok t)
        → control t.ip ≡ none
    by_answer (some x) heard e = ground arith
    by_answer none heard e =
        let same : site ≡ t = ground arith in ap (λ u. control u.ip) (sym same) ∙ heard

-- A salt and one chunk of one byte.
abbrev client : Client
client = record {
  ip = some home;
  addr = codes "home";
  input = (replicate 16 9 ++ (toy_tag 5 ++ (0 ∷ 1 ∷ (toy_tag 5 ++ (65 ∷ [])))), none) ∷ [];
  output = record { written = []; outcomes = [] };
}

abbrev cache : ReplayCache
cache = record { capacity = 2; active = []; archive = [] }

abbrev shared : Shared
shared = record { ciphers = keys; replay_cache = some cache; user_traffic = []; www_traffic = [] }

handle_connection_total_example : (x : Outcome) × (handle_connection toy env client shared ≡ some x)
handle_connection_total_example = handle_connection_total toy env client shared

abbrev finished : Option Outcome → Handled
finished (some (handled h)) = h
finished (some (panicked s)) = record {
  status = all_ok;
  key_id = [];
  probe = none;
  target = none;
  client_output = client.output;
  shared = s;
}
finished none = record {
  status = all_ok;
  key_id = [];
  probe = none;
  target = none;
  client_output = client.output;
  shared = shared;
}

abbrev result : Handled
result = finished (handle_connection toy env client shared)

abbrev reached : Target
reached = record site { input = []; output = record { written = 65 ∷ []; outcomes = [] } }

-- What the cache holds afterwards.
abbrev cache' : ReplayCache
cache' = (add_hash cache (pre_hash (codes "id") (replicate 16 9))).0

-- The connection is relayed: the byte reaches the site.
run :
    (handle_connection toy env client shared ≡ some (handled result))
    × (result.target ≡ some reached)
    × (result.shared.replay_cache ≡ some cache')
unfolding handle_connection find_access_key read_full find_entry snapshot_for_client_ip pass
    matches_ip ip_equal bytes_equal decrypt_once new_aead salt_size tag_size decrypts_length
    mark_used_by_client_ip find remove add add_hash pre_hash check_replay proxy relay dial_target
    read_from write_to new_shadowsocks_writer new_chunk_reader set_salt_generator read_chunk write
    random_get_salt transfer flush read
run = (refl, refl, refl)

handle_connection-Reaches_example :
    Reaches toy (λ ip. env.validator ip ≡ none) client shared result reached
handle_connection-Reaches_example =
    handle_connection-Reaches toy env client shared result reached env-HeedsControl run.0 run.1

cache-Tracks : Tracks cache []
cache-Tracks = record {
  positive = omega arith;
  bounded = omega arith;
  archived = inl refl;
  older = [];
  history = refl;
  nothing_older = λ h. refl;
}

keys-IsKeyed : IsKeyed keys
unfolding find
keys-IsKeyed = (refl, tt)

-- The same bytes again, in two pieces, after one other handshake.
abbrev again : Client
again = record client {
  input = (replicate 16 9, none) ∷ (toy_tag 5 ++ (0 ∷ 1 ∷ toy_tag 5), none) ∷ [];
}

abbrev later : Shared
later = record result.shared { replay_cache = some (add_all cache' (8 ∷ [])); user_traffic = [] }

same_bytes :
    (read_full bytes_for_key_finding again.input).0
    ≡ (read_full bytes_for_key_finding client.input).0
unfolding read_full read
same_bytes = refl

replayed_connection_refused_example :
    (h' : Handled) × (handle_connection toy env again later ≡ some (handled h'))
    × IsRefusedReplay again later h'
replayed_connection_refused_example =
    replayed_connection_refused toy env client again home shared later cache cache' [] (8 ∷ [])
      result reached refl refl same_bytes keys-IsKeyed refl cache-Tracks run.0 run.1 run.2 refl refl
      (omega arith)
