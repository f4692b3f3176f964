-- ===== src/Io/Copy.antt =====
-- io.Copy between two connections: each round is one Read into its buffer and one Write of what was
-- read.
pub mod Rounds
use ssgo.Prelude.{
  ℕ, zero, suc, ◌+◌, ◌*◌, ◌≤◌, ◌<◌, ◌≡◌, refl, sym, ap, ap₂, ◌∙◌, inl, inr, Option, none, some, [],
  ◌∷◌, ◌++◌, arith, append_assoc, append-nil, Bytes, length, length-append, Option-cases,
}
use ssgo.Io.{
  Error, eof, Source, content, ending, reads, read, Sink, write, IsReliable, write_reliable,
  write-written,
}
use ssgo.Io.Read.{more, last, read-Reads, reads_pos}

-- EOF is no error of Copy.
abbrev pub copy_error : Error → Option Error
copy_error eof = none
copy_error e = some e

abbrev pub copy_buffer : ℕ
copy_buffer = 32 * 1024

-- A call of Copy while it runs (`result` is `none`) and when it has returned.
pub record Copy : Type 0 where
  pub src : Source
  pub dst : Sink
  pub copied : ℕ
  pub result : Option (Option Error)

abbrev pub start_copy : Source → Sink → Copy
start_copy src dst = record { src = src; dst = dst; copied = 0; result = none }

abbrev write_some : Sink → Bytes → Sink × ℕ × Option Error
write_some w [] = (w, 0, none)
write_some w (b ∷ bs) = write w (b ∷ bs)

abbrev result_of : Option Error → Option Error → Option (Option Error)
result_of (some ew) er = some (some ew)
result_of none (some er) = some (copy_error er)
result_of none none = none

abbrev after_read : Copy → Bytes × Option Error × Source → Copy
after_read c (bs, er, src) =
    let (dst, n, ew) = write_some c.dst bs in
    record { src = src; dst = dst; copied = c.copied + n; result = result_of ew er }

abbrev round_unless : Copy → Option (Option Error) → Copy
round_unless c (some r) = c
round_unless c none = after_read c (read copy_buffer c.src)

-- One round, if Copy still runs.
unfoldable pub copy_round : Copy → Copy
copy_round c = round_unless c c.result

unfoldable pub copy_rounds : ℕ → Copy → Copy
unfolding copy_round
copy_rounds zero c = c
copy_rounds (suc n) c = copy_rounds n (copy_round c)

-- The whole call.
unfoldable pub copy : Source → Sink → Copy
unfolding copy_rounds
copy src dst = copy_rounds (reads src) (start_copy src dst)
