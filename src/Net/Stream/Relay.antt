-- ===== src/Net/Stream/Relay.antt =====
-- The result of a relay does not depend on how its two goroutines interleave.
use ssgo.Prelude.{
  subst, sym, ℕ, suc, ◌≤◌, ◌≡◌, refl, ap, ap₂, ◌∙◌, Bool, true, false, List, [], ◌∷◌, ◌++◌, Option,
  none, some, arith, length,
}
use ssgo.Io.{Error, Source, content, ending, reads, Sink, IsReliable}
use ssgo.Io.Copy.{Copy, start_copy, copy_error, copy_round, copy_rounds, copy}
use ssgo.Io.Copy.Rounds.{copy_rounds_end, copy_rounds_enough, Copied, copy_rounds-Copied}
use ssgo.Net.Stream.{
  DuplexConn, error_of, first_error, copy_one_way, relay, after_round, one_way_step, read_side,
  write_side, after_reads, after_writes, Side, to_left, to_right, Relaying, start_relay, relay_step,
  relay_steps, relay_end, close_read, close_write,
}

-- How often a side takes a step.
abbrev pub turns_left : List Side → ℕ
turns_left [] = 0
turns_left (to_left ∷ ss) = suc (turns_left ss)
turns_left (to_right ∷ ss) = turns_left ss

abbrev pub turns_right : List Side → ℕ
turns_right [] = 0
turns_right (to_left ∷ ss) = turns_right ss
turns_right (to_right ∷ ss) = suc (turns_right ss)

abbrev has_ended : Option (Option Error) → Bool
has_ended none = false
has_ended (some e) = true

-- A connection of which nothing is closed.
abbrev pub IsOpen : DuplexConn → Type 0
IsOpen c = (c.read_closed ≡ false) × (c.write_closed ≡ false)

abbrev fresh_conn : Source → Sink → DuplexConn
fresh_conn src dst = record { input = src; output = dst; read_closed = false; write_closed = false }

open_lem : (c : DuplexConn) → IsOpen c → c ≡ fresh_conn c.input c.output
open_lem c (r, w) =
    ap₂
      (λ r w.
        let c' : DuplexConn = record {
          input = c.input;
          output = c.output;
          read_closed = r;
          write_closed = w;
        } in
        c')
      r w

-- Two calls of Copy put together, on connections of which each closes its halves when it returns.
together : Copy → Copy → Relaying
together l r = record {
  left = record {
    input = r.src;
    output = l.dst;
    read_closed = has_ended r.result;
    write_closed = has_ended l.result;
  };
  right = record {
    input = l.src;
    output = r.dst;
    read_closed = has_ended l.result;
    write_closed = has_ended r.result;
  };
  leftward = record { copied = l.copied; result = l.result };
  rightward = record { copied = r.copied; result = r.result };
}

-- What a round closes is what belongs to a Copy that has returned.
after_round_lem :
    (o : Option (Option Error)) (i s : Source) (d d' : Sink) (rc wc : Bool)
    → after_round o
        (record { input = i; output = d; read_closed = rc; write_closed = false })
        (record { input = s; output = d'; read_closed = false; write_closed = wc })
      ≡ (
        record { input = i; output = d; read_closed = rc; write_closed = has_ended o },
        record { input = s; output = d'; read_closed = has_ended o; write_closed = wc },
      )
unfolding close_write close_read
after_round_lem none i s d d' rc wc = refl
after_round_lem (some e) i s d d' rc wc = refl

-- A step of one goroutine is a round of its own Copy: what the other has closed does not concern it.
step_to_left :
    (src : Source) (dst : Sink) (n : ℕ) (o : Option (Option Error)) (r : Copy)
    → (let l : Copy = record { src = src; dst = dst; copied = n; result = o } in
        relay_step to_left (together l r) ≡ together (copy_round l) r)
unfolding relay_step one_way_step together copy_round read_side write_side after_reads after_writes
step_to_left src dst n (some e) r = refl
step_to_left src dst n none r =
    let c : Copy = copy_round (record { src = src; dst = dst; copied = n; result = none }) in
    ap
      (λ (x : DuplexConn × DuplexConn).
        let y : Relaying = record {
          left = x.0;
          right = x.1;
          leftward = record { copied = c.copied; result = c.result };
          rightward = record { copied = r.copied; result = r.result };
        } in
        y)
      (after_round_lem c.result r.src c.src c.dst r.dst (has_ended r.result) (has_ended r.result))

step_to_right :
    (src : Source) (dst : Sink) (n : ℕ) (o : Option (Option Error)) (l : Copy)
    → (let r : Copy = record { src = src; dst = dst; copied = n; result = o } in
        relay_step to_right (together l r) ≡ together l (copy_round r))
unfolding relay_step one_way_step together copy_round read_side write_side after_reads after_writes
step_to_right src dst n (some e) l = refl
step_to_right src dst n none l =
    let c : Copy = copy_round (record { src = src; dst = dst; copied = n; result = none }) in
    ap
      (λ (x : DuplexConn × DuplexConn).
        let y : Relaying = record {
          left = x.1;
          right = x.0;
          leftward = record { copied = l.copied; result = l.result };
          rightward = record { copied = c.copied; result = c.result };
        } in
        y)
      (after_round_lem c.result l.src c.src c.dst l.dst (has_ended l.result) (has_ended l.result))

relay_steps_lem :
    (ss : List Side) (l r : Copy)
    → relay_steps ss (together l r)
      ≡ together (copy_rounds (turns_left ss) l) (copy_rounds (turns_right ss) r)
unfolding relay_steps copy_rounds
relay_steps_lem [] l r = refl
relay_steps_lem (to_left ∷ ss) l r =
    ap (relay_steps ss) (step_to_left l.src l.dst l.copied l.result r)
    ∙ relay_steps_lem ss (copy_round l) r
relay_steps_lem (to_right ∷ ss) l r =
    ap (relay_steps ss) (step_to_right r.src r.dst r.copied r.result l)
    ∙ relay_steps_lem ss l (copy_round r)

-- As many steps as the source has reads are enough for a goroutine.
rounds-copy :
    (n : ℕ) (src : Source) (dst : Sink)
    → reads src ≤ n
    → copy_rounds n (start_copy src dst) ≡ copy src dst
unfolding copy
rounds-copy n src dst h = copy_rounds_enough n (reads src) (start_copy src dst) h (omega arith)

copy-ended : (src : Source) (dst : Sink) → has_ended (copy src dst).result ≡ true
unfolding copy
copy-ended src dst =
    let (r, over) = copy_rounds_end (reads src) (start_copy src dst) (omega arith) in
    ap has_ended over

relay_opened :
    (li ri : Source) (lo ro : Sink)
    → relay_end (together (copy ri lo) (copy li ro)) ≡ relay (fresh_conn li lo) (fresh_conn ri ro)
unfolding relay_end relay copy_one_way together close_read close_write read_side write_side
    after_reads after_writes
relay_opened li ri lo ro = rw (copy-ended ri lo, copy-ended li ro) refl

-- Between connections of which nothing is closed, however the steps of the two goroutines interleave,
-- when each has had as many as its source has reads, both have ended, and the counts, the error and the
-- two connections are those of copying one direction after the other, although each goroutine closes
-- halves of connections that the other still uses.
pub relay_steps-relay :
    (left right : DuplexConn) (ss : List Side)
    → IsOpen left
    → IsOpen right
    → reads right.input ≤ turns_left ss
    → reads left.input ≤ turns_right ss
    → relay_end (relay_steps ss (start_relay left right)) ≡ relay left right
unfolding start_relay together
relay_steps-relay left right ss l_open r_open to_l to_r =
    let l = open_lem left l_open in
    let r = open_lem right r_open in
    ap₂ (λ l r. relay_end (relay_steps ss (start_relay l r))) l r
    ∙ ap relay_end (
        relay_steps_lem ss (start_copy right.input left.output) (start_copy left.input right.output)
        ∙ ap₂ together (rounds-copy (turns_left ss) right.input left.output to_l)
            (rounds-copy (turns_right ss) left.input right.output to_r))
    ∙ relay_opened left.input right.input left.output right.output
    ∙ sym (ap₂ relay l r)

-- What a relay between connections that accept every Write comes to.
pub record Relayed (left right : DuplexConn) (n rn : ℕ) (e : Option Error)
    (left' right' : DuplexConn) : Type 0 where
  pub to_left_written : left'.output.written ≡ left.output.written ++ content right.input
  pub to_right_written : right'.output.written ≡ right.output.written ++ content left.input
  pub to_left_copied : n ≡ length (content right.input)
  pub to_right_copied : rn ≡ length (content left.input)
  pub error : e ≡ first_error (copy_error (ending right.input)) (copy_error (ending left.input))
  pub left_closed : (left'.read_closed ≡ true) × (left'.write_closed ≡ true)
  pub right_closed : (right'.read_closed ≡ true) × (right'.write_closed ≡ true)

copy-Copied :
    (src : Source) (dst : Sink) → IsReliable dst → Copied (start_copy src dst) (copy src dst)
unfolding copy
copy-Copied src dst rel = copy_rounds-Copied (reads src) (start_copy src dst) refl rel (omega arith)

-- Between connections of which nothing is closed and that accept every Write, each side receives,
-- behind what was written to it before, all that the other side sends before its stream ends or fails,
-- even when the other direction has ended before; the two counts are the numbers of bytes sent; the
-- error is that of the right side's stream, else that of the left side's, where the end of a stream is
-- no error; and both halves of both connections are closed.
pub relay-Relayed :
    (left right : DuplexConn)
    → IsOpen left
    → IsOpen right
    → IsReliable left.output
    → IsReliable right.output
    → (let (n, rn, e, left', right') = relay left right in Relayed left right n rn e left' right')
unfolding relay copy_one_way close_read close_write read_side write_side after_reads after_writes
relay-Relayed left right l_open r_open rel_l rel_r =
    let l = copy-Copied right.input left.output rel_l in
    let r = copy-Copied left.input right.output rel_r in
    subst
      (λ (x : ℕ × ℕ × Option Error × DuplexConn × DuplexConn).
        let (n, rn, e, left', right') = x in Relayed left right n rn e left' right')
      (sym (ap₂ relay (open_lem left l_open) (open_lem right r_open)))
      (record {
        to_left_written = l.written;
        to_right_written = r.written;
        to_left_copied = omega (arith, l.copied);
        to_right_copied = omega (arith, r.copied);
        error = ap₂ (λ x y. first_error (error_of x) (error_of y)) l.result r.result;
        left_closed = (refl, refl);
        right_closed = (refl, refl);
      })
