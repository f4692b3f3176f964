-- ===== src/Service/CopyBack.antt =====
-- service/udp.go, timedCopy: what a target answers is packed in place and sent to the client.
-- The socks library and the client's socket are parameters.
use ssgo.Prelude.{
  ℕ, ◌+◌, ◌-◌, ◌≤◌, ◌<◌, ◌≡◌, sym, ap, ◌∙◌, ◌++◌, Option, none, some, arith, ltb, if◌then◌else◌,
  Bytes, length, take, drop, splice, length-splice, drop-splice_at, take-append, append_assoc,
  length-append, length-drop, inl, inr, false,
}
use ssgo.Net.{Status, all_ok, err_read, err_pack, err_write}
use ssgo.Io.{Error, Result, ok, err, on_error}
use ssgo.Shadowsocks.Crypto.{Crypto, IsCrypto}
use ssgo.Shadowsocks.Cipher.{Cipher, salt_size}
use ssgo.Shadowsocks.Cipher.Table.{IsUsable}
use ssgo.Shadowsocks.Salt.{Random, IsRandom}
use ssgo.Shadowsocks.Packet.{pack, unpack}
use ssgo.Shadowsocks.Packet.RoundTrip.{pack_cases, unpack-pack}

-- How one ReadFrom of the target's connection ends: a timeout of a net.Error, any other error after some
-- bytes, or a body with the address it came from.
pub data Received : Type 0 where
  timed_out : Received
  read_failed : ℕ → Error → Received
  received : Bytes → Bytes → Received

-- One round of the loop: it expired, or the packet's status, its lengths for the metrics, and what
-- was handed to the client's socket; a panic ends the loop.
pub data Round : Type 0 where
  expired panicked : Round
  copied : Status → ℕ → ℕ → Option Bytes → Round

module _ (crypto : Crypto) (parse_addr : Bytes → Bytes) (max_addr_len : ℕ) (rnd : Random) where
  -- The body and the address behind each other in `pkt`, and Pack in place, from where the salt starts.
  unfoldable pub pack_response : Cipher → Bytes → Bytes → Bytes → Result Bytes
  pack_response cipher pkt body raddr =
      let body_start = salt_size cipher + max_addr_len in
      let read = splice body_start body pkt in
      let src_addr = parse_addr raddr in
      let addr_start = body_start - length src_addr in
      let filled = splice addr_start src_addr read in
      let plaintext_buf = take (length src_addr + length body) (drop addr_start filled) in
      let salt_start = addr_start - salt_size cipher in
      pack crypto rnd (drop salt_start filled) plaintext_buf cipher

  abbrev pub send_response : (Bytes → ℕ × Option Error) → ℕ → Result Bytes → Round
  send_response write_to body_len (err e) = copied err_pack body_len 0 none
  send_response write_to body_len (ok buf) =
      let (n, e) = write_to buf in
      on_error e (λ x. copied err_write body_len n (some buf)) (copied all_ok body_len n (some buf))

  -- An address longer than `max_addr_len` would be put before the start of `pkt`.
  unfoldable pub copy_round : (Bytes → ℕ × Option Error) → Cipher → Bytes → Received → Round
  unfolding pack_response
  copy_round write_to cipher pkt timed_out = expired
  copy_round write_to cipher pkt (read_failed n e) = copied err_read n 0 none
  copy_round write_to cipher pkt (received body raddr) =
      if ltb max_addr_len (length (parse_addr raddr))
      then panicked
      else send_response write_to (length body) (pack_response cipher pkt body raddr)

  -- What is packed is the source's address and the body behind it.
  response_plaintext :
      (start len : ℕ) (pkt body src : Bytes)
      → start + length src ≡ len
      → len + length body ≤ length pkt
      → take (length src + length body) (drop start (splice start src (splice len body pkt)))
        ≡ src ++ body
  response_plaintext start len pkt body src at fits =
      let size = length-splice len body pkt fits in
      let rest = drop (len + length body) pkt in
      let two = length-append src body in
      ap (take (length src + length body)) (
        drop-splice_at start src (splice len body pkt) (omega (arith, at, fits, size))
        ∙ ap (λ k. src ++ drop k (splice len body pkt)) at
        ∙ ap (◌++◌ src) (drop-splice_at len body pkt (omega (arith, fits)))
        ∙ sym (append_assoc src body rest))
      ∙ take-append (length src + length body) (src ++ body) rest two

  -- The call of Pack: its destination reaches to the end of `pkt`.
  pack_response_lem :
      (cipher : Cipher) (pkt body raddr : Bytes)
      → length (parse_addr raddr) ≤ max_addr_len
      → salt_size cipher + max_addr_len + length body ≤ length pkt
      → (dst : Bytes) × (pack_response cipher pkt body raddr
          ≡ pack crypto rnd dst (parse_addr raddr ++ body) cipher)
        × (length dst + max_addr_len ≡ length pkt + length (parse_addr raddr))
  unfolding pack_response
  pack_response_lem cipher pkt body raddr short fits =
      let src = parse_addr raddr in
      let body_start = salt_size cipher + max_addr_len in
      let start = body_start - length src in
      let read = splice body_start body pkt in
      let filled = splice start src read in
      let read_size = length-splice body_start body pkt fits in
      let size = length-splice start src read (omega (arith, short, fits, read_size)) in
      let dst = drop (start - salt_size cipher) filled in
      (
        dst,
        ap (λ p. pack crypto rnd dst p cipher)
            (response_plaintext start body_start pkt body src (omega (arith, short)) fits),
        omega (arith, length-drop (start - salt_size cipher) filled, size, read_size, short, fits),
      )

  module _ (laws : IsCrypto crypto) (full : IsRandom rnd) where
    -- With an address no longer than the header's room, a body that leaves room for the tag, and a
    -- salt drawn, the response is packed and handed to the client's socket; it is longer than the
    -- address and the body by the salt and the tag, and the client unpacks these two from it.
    pub copy_round-unpack :
        (write_to : Bytes → ℕ × Option Error) (cipher : Cipher) (pkt body raddr salt : Bytes)
        → IsUsable cipher.aead
        → length (parse_addr raddr) ≤ max_addr_len
        → salt_size cipher + max_addr_len + length body + 16 ≤ length pkt
        → rnd (salt_size cipher) ≡ ok salt
        → (buf : Bytes) × (copy_round write_to cipher pkt (received body raddr)
            ≡ send_response write_to (length body) (ok buf))
          × (length buf ≡ salt_size cipher + length (parse_addr raddr ++ body) + 16)
          × (unpack crypto none buf cipher ≡ ok (parse_addr raddr ++ body))
    unfolding copy_round
    copy_round-unpack write_to cipher pkt body raddr salt u short fits drawn =
        let (dst, call, size) =
          pack_response_lem cipher pkt body raddr short (omega (arith, fits)) in
        let plaintext = parse_addr raddr ++ body in
        let two = length-append (parse_addr raddr) body in
        let inside : ltb max_addr_len (length (parse_addr raddr)) ≡ false = ground arith in
        elim (pack_cases crypto laws rnd dst plaintext cipher full u) [
          | inl (small, _) ↦ absurd (omega (arith, small, size, fits, short))
          | inr (inl (e, failed, _)) ↦ ground (arith, failed, drawn)
          | inr (inr (s, a, _, _, _, _, inl (small, _))) ↦
              absurd (omega (arith, small, size, fits, short, two))
          | inr (inr (s, a, _, _, _, _, inr (_, done))) ↦
              let (long, _, opened, _) =
                unpack-pack crypto laws rnd dst plaintext cipher full u done in
              (_, rw inside (ap (send_response write_to (length body)) (call ∙ done)), long, opened)
        ]

    -- With such an address, a body that fits the read buffer but leaves no room for the tag is not
    -- sent: the round reports that packing failed.
    copy_round-too_long :
        (write_to : Bytes → ℕ × Option Error) (cipher : Cipher) (pkt body raddr : Bytes)
        → IsUsable cipher.aead
        → length (parse_addr raddr) ≤ max_addr_len
        → salt_size cipher + max_addr_len + length body ≤ length pkt
        → length pkt < salt_size cipher + max_addr_len + length body + 16
        → copy_round write_to cipher pkt (received body raddr)
          ≡ copied err_pack (length body) 0 none
    unfolding copy_round
    copy_round-too_long write_to cipher pkt body raddr u short fits long =
        let (dst, call, size) = pack_response_lem cipher pkt body raddr short fits in
        let two = length-append (parse_addr raddr) body in
        let inside : ltb max_addr_len (length (parse_addr raddr)) ≡ false = ground arith in
        rw inside (elim (pack_cases crypto laws rnd dst (parse_addr raddr ++ body) cipher full u) [
          | inl (_, e) ↦ ap (send_response write_to (length body)) (call ∙ e)
          | inr (inl (x, _, e)) ↦ ap (send_response write_to (length body)) (call ∙ e)
          | inr (inr (s, a, _, _, _, _, inl (_, e))) ↦
              ap (send_response write_to (length body)) (call ∙ e)
          | inr (inr (s, a, _, _, _, _, inr (room, _))) ↦
              absurd (omega (arith, room, size, long, short, two))
        ])
