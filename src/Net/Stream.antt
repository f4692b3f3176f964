-- ===== src/Net/Stream.antt =====
-- net/stream.go: duplex connections, and the relay between two of them. A connection has a half that
-- is read and a half that is written. The two goroutines of a relay work on the same two connections,
-- and their interleaving is a list of the sides that take a step. CloseRead and CloseWrite belong to the
-- connection below: a half that is closed is at its end for a Read, and fails a Write.
pub mod Relay
use ssgo.Prelude.{ℕ, ◌+◌, Bool, true, false, ◌||◌, List, [], ◌∷◌, Option, none, some, if◌then◌else◌}
use ssgo.Io.{external, fails, Error, Source, Sink}
use ssgo.Io.Copy.{Copy, start_copy, copy_round, copy}

pub record DuplexConn : Type 0 where
  pub input : Source
  pub output : Sink
  pub read_closed : Bool
  pub write_closed : Bool

-- WrapConn: the reader and the writer are replaced, on the connection inside if there is one.
pub data WrappedConn : Type 0 where
  plain : DuplexConn → WrappedConn
  adaptor : DuplexConn → Source → Sink → WrappedConn

abbrev pub inner : WrappedConn → DuplexConn
inner (plain c) = c
inner (adaptor c r w) = c

unfoldable pub wrap_conn : WrappedConn → Source → Sink → WrappedConn
wrap_conn c r w = adaptor (inner c) r w

unfoldable pub close_read : DuplexConn → DuplexConn
close_read c = record c { read_closed = true }

unfoldable pub close_write : DuplexConn → DuplexConn
close_write c = record c { write_closed = true }

-- What a Read and a Write of the connection meet.
unfoldable pub read_side : DuplexConn → Source
read_side c = if c.read_closed then [] else c.input

unfoldable pub write_side : DuplexConn → Sink
write_side c =
    if c.write_closed
    then record { written = c.output.written; outcomes = fails 0 (external 0) ∷ [] }
    else c.output

-- The connection after Reads and Writes that have left `src` and `dst`.
unfoldable pub after_reads : Source → DuplexConn → DuplexConn
after_reads src c = record c { input = if c.read_closed then c.input else src }

unfoldable pub after_writes : Sink → DuplexConn → DuplexConn
after_writes dst c = record c { output = if c.write_closed then c.output else dst }

abbrev pub error_of : Option (Option Error) → Option Error
error_of none = none
error_of (some e) = e

-- copyOneWay: the count and the error, and the two connections.
unfoldable pub copy_one_way : DuplexConn → DuplexConn → (ℕ × Option Error) × DuplexConn × DuplexConn
unfolding close_write close_read read_side write_side after_reads after_writes
copy_one_way left right =
    let c = copy (read_side right) (write_side left) in
    (
      (c.copied, error_of c.result),
      close_write (after_writes c.dst left),
      close_read (after_reads c.src right),
    )

-- The error of Relay: its own direction's first.
abbrev pub first_error : Option Error → Option Error → Option Error
first_error (some e) e' = some e
first_error none e' = e'

-- Relay, one direction after the other: the counts to the left and to the right, the error, and
-- the connections.
unfoldable pub relay : DuplexConn → DuplexConn → ℕ × ℕ × Option Error × DuplexConn × DuplexConn
unfolding copy_one_way
relay left right =
    let ((rn, rs_err), right', left') = copy_one_way right left in
    let ((n, e), left'', right'') = copy_one_way left' right' in
    (n, rn, first_error e rs_err, left'', right'')

-- A call of copyOneWay while it runs, and when it has returned.
pub record OneWay : Type 0 where
  pub copied : ℕ
  pub result : Option (Option Error)

-- The connections behind a round of Copy: when it returns, the half that it has written and the half
-- that it has read are closed.
abbrev pub after_round : Option (Option Error) → DuplexConn → DuplexConn → DuplexConn × DuplexConn
after_round none left right = (left, right)
after_round (some e) left right = (close_write left, close_read right)

-- A step of copyOneWay(left, right), a round of its Copy, on the connections as they then are.
abbrev pub step_unless :
    Option (Option Error) → OneWay → DuplexConn → DuplexConn → OneWay × DuplexConn × DuplexConn
step_unless (some e) w left right = (w, left, right)
step_unless none w left right =
    let c =
      copy_round (record {
        src = read_side right;
        dst = write_side left;
        copied = w.copied;
        result = none;
      }) in
    let (left', right') =
      after_round c.result (after_writes c.dst left) (after_reads c.src right) in
    (record { copied = c.copied; result = c.result }, left', right')

unfoldable pub one_way_step : OneWay → DuplexConn → DuplexConn → OneWay × DuplexConn × DuplexConn
unfolding close_write close_read read_side write_side after_reads after_writes
one_way_step w left right = step_unless w.result w left right

pub data Side : Type 0 where
  to_left to_right : Side

-- The two connections and the two goroutines, by the side that they write to.
pub record Relaying : Type 0 where
  pub left : DuplexConn
  pub right : DuplexConn
  pub leftward : OneWay
  pub rightward : OneWay

unfoldable pub start_relay : DuplexConn → DuplexConn → Relaying
start_relay left right = record {
  left = left;
  right = right;
  leftward = record { copied = 0; result = none };
  rightward = record { copied = 0; result = none };
}

unfoldable pub relay_step : Side → Relaying → Relaying
unfolding one_way_step
relay_step to_left r =
    let (w, l, rt) = one_way_step r.leftward r.left r.right in
    record { left = l; right = rt; leftward = w; rightward = r.rightward }
relay_step to_right r =
    let (w, rt, l) = one_way_step r.rightward r.right r.left in
    record { left = l; right = rt; leftward = r.leftward; rightward = w }

unfoldable pub relay_steps : List Side → Relaying → Relaying
unfolding relay_step
relay_steps [] r = r
relay_steps (s ∷ ss) r = relay_steps ss (relay_step s r)

-- What Relay returns when both goroutines have ended, and the connections.
unfoldable pub relay_end : Relaying → ℕ × ℕ × Option Error × DuplexConn × DuplexConn
relay_end r = (
  r.leftward.copied,
  r.rightward.copied,
  first_error (error_of r.leftward.result) (error_of r.rightward.result),
  r.left,
  r.right,
)
