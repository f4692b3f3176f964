-- ===== src/Service/Metrics/Measured.antt =====
-- service/metrics/metrics.go: a connection whose bytes are counted. The counters are int64 that other
-- connections do not share.
use ssgo.Prelude.{
  ℕ, add_int64, ◌+◌, ◌-◌, ◌%◌, ◌^◌, ◌≤◌, ◌<◌, ◌≡◌, refl, List, [], ◌∷◌, Option, arith, Bytes,
  length,
}
use ssgo.Io.{Error, Source, read, Sink, write, write-written}
use ssgo.Io.Copy.{copy}
use ssgo.Io.Copy.Rounds.{copy-copied}
use ssgo.Net.Stream.{DuplexConn, error_of}

pub record MeasuredConn : Type 0 where
  pub conn : DuplexConn
  pub read_count : ℕ
  pub write_count : ℕ

unfoldable pub measure_conn : DuplexConn → ℕ → ℕ → MeasuredConn
measure_conn conn bytes_sent bytes_received = record {
  conn = conn;
  read_count = bytes_received;
  write_count = bytes_sent;
}

-- Read into a buffer of n bytes: the bytes, the error, and the connection.
unfoldable pub read_measured : ℕ → MeasuredConn → Bytes × Option Error × MeasuredConn
read_measured n c =
    let (bs, e, src) = read n c.conn.input in
    (
      bs,
      e,
      record c {
        conn = record c.conn { input = src };
        read_count = add_int64 c.read_count (length bs);
      },
    )

-- WriteTo: the writer, the count, the error, and the connection.
unfoldable pub write_measured_to : Sink → MeasuredConn → Sink × ℕ × Option Error × MeasuredConn
write_measured_to w c =
    let k = copy c.conn.input w in
    (
      k.dst,
      k.copied,
      error_of k.result,
      record c {
        conn = record c.conn { input = k.src };
        read_count = add_int64 c.read_count k.copied;
      },
    )

unfoldable pub write_measured : Bytes → MeasuredConn → ℕ × Option Error × MeasuredConn
write_measured b c =
    let (output, n, e) = write c.conn.output b in
    (
      n,
      e,
      record c {
        conn = record c.conn { output = output };
        write_count = add_int64 c.write_count n;
      },
    )

-- ReadFrom: the reader, the count, the error, and the connection.
unfoldable pub read_measured_from : Source → MeasuredConn → Source × ℕ × Option Error × MeasuredConn
read_measured_from r c =
    let k = copy r c.conn.output in
    (
      k.src,
      k.copied,
      error_of k.result,
      record c {
        conn = record c.conn { output = k.dst };
        write_count = add_int64 c.write_count k.copied;
      },
    )

-- The calls on a measured connection.
pub data Use : Type 0 where
  reads_bytes : ℕ → Use
  writes_to : Sink → Use
  writes_bytes : Bytes → Use
  reads_from : Source → Use

unfoldable pub after_use : Use → MeasuredConn → MeasuredConn
unfolding read_measured write_measured_to write_measured read_measured_from
after_use (reads_bytes n) c = (read_measured n c).2
after_use (writes_to w) c = (write_measured_to w c).3
after_use (writes_bytes b) c = (write_measured b c).2
after_use (reads_from r) c = (read_measured_from r c).3

unfoldable pub after_uses : List Use → MeasuredConn → MeasuredConn
unfolding after_use
after_uses [] c = c
after_uses (u ∷ us) c = after_uses us (after_use u c)

-- The bytes of the connection that a call has passed on: into the caller's buffer, or to a writer.
unfoldable pub passed_on : Use → MeasuredConn → ℕ
unfolding read_measured write_measured_to
passed_on (reads_bytes n) c = length (read_measured n c).0
passed_on (writes_to w) c = length (write_measured_to w c).0.written - length w.written
passed_on (writes_bytes b) c = 0
passed_on (reads_from r) c = 0

unfoldable pub all_passed_on : List Use → MeasuredConn → ℕ
unfolding passed_on after_use
all_passed_on [] c = 0
all_passed_on (u ∷ us) c = passed_on u c + all_passed_on us (after_use u c)

pub record Counted (c c' : MeasuredConn) (passed : ℕ) : Type 0 where
  pub grows : length c.conn.output.written ≤ length c'.conn.output.written
  pub wrote :
      c'.write_count
      ≡ (c.write_count + (length c'.conn.output.written - length c.conn.output.written)) % 2 ^ 64
  pub read : c'.read_count ≡ (c.read_count + passed) % 2 ^ 64

-- int64 holds less than 2 ^ 64 patterns.
abbrev pub IsCounter : MeasuredConn → Type 0
IsCounter c = (c.read_count < 2 ^ 64) × (c.write_count < 2 ^ 64)

after_use-Counted :
    (u : Use) (c : MeasuredConn) → IsCounter c → Counted c (after_use u c) (passed_on u c)
unfolding after_use passed_on read_measured write_measured_to write_measured read_measured_from
after_use-Counted (reads_bytes n) c h = record {
  grows = omega arith;
  wrote = omega (arith, h.1);
  read = refl;
}
after_use-Counted (writes_to w) c h =
    let e = copy-copied c.conn.input w in
    record { grows = omega arith; wrote = omega (arith, h.1); read = omega (arith, e) }
after_use-Counted (writes_bytes b) c h =
    let e = write-written c.conn.output b in
    record { grows = omega (arith, e); wrote = omega (arith, e); read = omega (arith, h.0) }
after_use-Counted (reads_from r) c h =
    let e = copy-copied r c.conn.output in
    record { grows = omega (arith, e); wrote = omega (arith, e); read = omega (arith, h.0) }

after_use-IsCounter : (u : Use) (c : MeasuredConn) → IsCounter c → IsCounter (after_use u c)
unfolding after_use read_measured write_measured_to write_measured read_measured_from
after_use-IsCounter (reads_bytes n) c h = (omega arith, h.1)
after_use-IsCounter (writes_to w) c h = (omega arith, h.1)
after_use-IsCounter (writes_bytes b) c h = (h.0, omega arith)
after_use-IsCounter (reads_from r) c h = (h.0, omega arith)

-- After any calls on a measured connection, what its write counter has gained is the number of bytes
-- that reached the connection below, and what its read counter has gained is the number that the
-- calls passed on to buffers and writers, up to the wrap-around of an int64, however the calls end.
pub after_uses-Counted :
    (us : List Use) (c : MeasuredConn)
    → IsCounter c
    → Counted c (after_uses us c) (all_passed_on us c)
unfolding after_uses all_passed_on
after_uses-Counted [] c h = record {
  grows = omega arith;
  wrote = omega (arith, h.1);
  read = omega (arith, h.0);
}
after_uses-Counted (u ∷ us) c h =
    let a = after_use-Counted u c h in
    let b = after_uses-Counted us (after_use u c) (after_use-IsCounter u c h) in
    record {
      grows = omega (arith, a.grows, b.grows);
      wrote = omega (arith, a.grows, b.grows, a.wrote, b.wrote);
      read = omega (arith, a.read, b.read);
    }
