-- ===== src/Service/Udp/EndToEnd.antt =====
-- The client's packet connection and the two directions of the server together.
use ssgo.Prelude.{
  ℕ, ◌+◌, ◌-◌, ◌≤◌, ◌≡◌, refl, ap, ap₂, ◌∙◌, inl, inr, Bool, Bool-cases, Option, none, some, ◌++◌,
  arith, ltb, leb, if◌then◌else◌, Bytes, length, take, take_all, drop-append, length-append,
  length-splice,
}
use ssgo.Io.{Error, ok, short_buffer}
use ssgo.Net.{Ip}
use ssgo.Shadowsocks.Crypto.{Crypto, IsCrypto}
use ssgo.Shadowsocks.Cipher.{Cipher, salt_size}
use ssgo.Shadowsocks.Cipher.Table.{IsUsable}
use ssgo.Shadowsocks.Salt.{Random, IsRandom}
use ssgo.Shadowsocks.Packet.{pack, unpack}
use ssgo.Shadowsocks.Packet.RoundTrip.{pack_cases}
use ssgo.Shadowsocks.Client.PacketConn.{
  client_udp_buffer_size, append_behind, written, write_addressed, write_to, read_addressed,
  read_text, read_from,
}
use ssgo.Service.Nat.{Natconn, get}
use ssgo.Service.CopyBack.{received, copy_round, send_response, copy_round-unpack}
use ssgo.Service.Udp.{UdpAddr, Env, Shared, Packet, Forwarded, done, serve_round}
use ssgo.Service.Udp.Forward.{serve_round-pack}

length-append_behind :
    (start : ℕ) (xs ys buf : Bytes) → length (append_behind start xs ys buf) ≡ length buf
unfolding append_behind
length-append_behind start xs ys buf =
    elim (Bool-cases (leb (start + length (xs ++ ys)) (length buf))) [
      | inl fits ↦ rw fits (length-splice start (xs ++ ys) buf (ground arith))
      | inr long ↦ elim (Bool-cases (leb (start + length xs) (length buf))) [
        | inl fits ↦ rw (long, fits) (length-splice start xs buf (ground arith))
        | inr longer ↦ rw (long, longer) refl
      ]
    ]

module _ (crypto : Crypto) (laws : IsCrypto crypto) (rnd : Random) (full : IsRandom rnd) where
  -- WriteTo packs what fits its buffer with salt and tag.
  write_to-packs :
      (cipher : Cipher) (parse_addr : Bytes → Option Bytes) (send : Bytes → Option Error)
      (cipher_buf b addr tgt_addr salt : Bytes)
      → IsUsable cipher.aead
      → parse_addr addr ≡ some tgt_addr
      → salt_size cipher + length (tgt_addr ++ b) + 16 ≤ length cipher_buf
      → rnd (salt_size cipher) ≡ ok salt
      → (buf : Bytes) × (write_to crypto cipher rnd parse_addr send cipher_buf b addr
          ≡ (length b, send buf, some buf))
        × (pack crypto rnd
              (append_behind (salt_size cipher) tgt_addr b cipher_buf)
              (tgt_addr ++ b)
              cipher
            ≡ ok buf)
  unfolding write_to
  write_to-packs cipher parse_addr send cipher_buf b addr tgt_addr salt u parsed fits drawn =
      let dst = append_behind (salt_size cipher) tgt_addr b cipher_buf in
      let size = length-append_behind (salt_size cipher) tgt_addr b cipher_buf in
      elim (pack_cases crypto laws rnd dst (tgt_addr ++ b) cipher full u) [
        | inl (small, _) ↦ absurd (omega (arith, small, size, fits))
        | inr (inl (e, failed, _)) ↦ ground (arith, failed, drawn)
        | inr (inr (s, a, _, _, _, _, inl (small, _))) ↦ absurd (omega (arith, small, size, fits))
        | inr (inr (s, a, _, _, _, _, inr (_, packed))) ↦ (
          _,
          ap (write_addressed crypto cipher rnd send cipher_buf b) parsed
              ∙ ap (written send (length b)) packed,
          packed,
        )
      ]

  -- What a client writes to an address that the address parser accepts, and that fits its buffer with
  -- salt and tag, is handed to its connection as one packet; the server, where it knows the client
  -- with that cipher and finds, resolves and allows the address, hands the same bytes to the
  -- target's socket, and accounts what was written to the client's key.
  pub serve_round-write_to :
      (env : Env) (stopped : Bool) (client_addr : Bytes) (client_ip : Option Ip) (s : Shared)
      (c : Natconn) (parse_addr : Bytes → Option Bytes) (send : Bytes → Option Error)
      (cipher_buf b addr tgt_addr salt : Bytes) (tgt : UdpAddr)
      → IsUsable c.cipher.aead
      → get s.nat client_addr ≡ some c
      → length cipher_buf ≡ client_udp_buffer_size
      → salt_size c.cipher + length (tgt_addr ++ b) + 16 ≤ client_udp_buffer_size
      → rnd (salt_size c.cipher) ≡ ok salt
      → parse_addr addr ≡ some tgt_addr
      → env.split_addr (tgt_addr ++ b) ≡ some tgt_addr
      → env.resolve tgt_addr ≡ ok tgt
      → env.validator tgt.ip ≡ none
      → (buf : Bytes) × (f : Forwarded) × (s' : Shared) × (write_to crypto c.cipher rnd parse_addr
            send cipher_buf b addr
          ≡ (length b, send buf, some buf))
        × (serve_round crypto env stopped
              (some (record { data_bytes = buf; client_addr = client_addr; client_ip = client_ip }))
              s
            ≡ done f s')
        × (f.sent ≡ some (b, tgt))
        × (f.key_id ≡ c.key_id)
        × (f.proxy_target_bytes ≡ (env.write_to b tgt).0)
  serve_round-write_to env stopped client_addr client_ip s c parse_addr send cipher_buf b addr
        tgt_addr salt tgt u there room fits drawn parsed split resolved allowed =
      let (buf, wrote, packed) =
        write_to-packs c.cipher parse_addr send cipher_buf b addr tgt_addr salt u parsed
          (omega (arith, room, fits)) drawn in
      let packet : Packet = record {
        data_bytes = buf;
        client_addr = client_addr;
        client_ip = client_ip;
      } in
      let (f, s', round, sent, key, count, _) =
        serve_round-pack crypto env laws stopped packet s c rnd _ tgt_addr b tgt full u there packed
          split resolved allowed in
      (buf, f, s', wrote, round, sent, key, count)

  -- A target's answer that the server packs, with room for it in the server's and in the client's
  -- buffer, is read by the client: it gets the source's address and as much of the body as it has
  -- room for, and the error of a short buffer exactly where that is not all of it.
  pub read_from-copy_round :
      (parse_addr : Bytes → Bytes) (max_addr_len : ℕ) (split_addr : Bytes → Option Bytes)
      (send : Bytes → ℕ × Option Error) (cipher : Cipher) (pkt body raddr salt : Bytes) (room : ℕ)
      → IsUsable cipher.aead
      → length (parse_addr raddr) ≤ max_addr_len
      → salt_size cipher + max_addr_len + length body + 16 ≤ length pkt
      → salt_size cipher + length (parse_addr raddr ++ body) + 16 ≤ client_udp_buffer_size
      → rnd (salt_size cipher) ≡ ok salt
      → split_addr (parse_addr raddr ++ body) ≡ some (parse_addr raddr)
      → (buf : Bytes) × (copy_round crypto parse_addr max_addr_len rnd send cipher pkt
            (received body raddr)
          ≡ send_response crypto parse_addr max_addr_len rnd send (length body) (ok buf))
        × (read_from crypto cipher split_addr room (ok buf) ≡ (
          take room body,
          some (parse_addr raddr),
          (if ltb room (length body) then some short_buffer else none),
        ))
  unfolding read_from
  read_from-copy_round parse_addr max_addr_len split_addr send cipher pkt body raddr salt room u
        short fits small drawn split =
      let src = parse_addr raddr in
      let (buf, sent, long, opened) =
        copy_round-unpack crypto parse_addr max_addr_len rnd laws full send cipher pkt body raddr
          salt u short fits drawn in
      let whole : take client_udp_buffer_size buf ≡ buf =
        take_all client_udp_buffer_size buf (omega (arith, long, small)) in
      let rest : length (src ++ body) - length src ≡ length body =
        omega (arith, length-append src body) in
      (
        buf,
        sent,
        ap (λ p. read_text crypto cipher split_addr room (unpack crypto none p cipher)) whole
            ∙ ap (read_text crypto cipher split_addr room) opened
            ∙ ap (read_addressed crypto cipher room (src ++ body)) split
            ∙ ap₂
                (λ (t : Bytes) (n : ℕ).
                  (take room t, some src, (if ltb room n then some short_buffer else none)))
                (drop-append (length src) src body refl) rest,
      )
