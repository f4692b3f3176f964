-- ===== src/Io.antt =====
-- What the code takes from Go's `io` and `errors`: error values, results, and the contracts of
-- io.Reader and io.Writer. A reader is the script of what its Read calls meet, a writer the bytes
-- that reached it and the script of how its Write calls end, so that short reads, partial writes
-- and errors at any point are all inputs of the model.
pub mod Read
pub mod Copy
use ssgo.Prelude.{
  ℕ, suc, ◌+◌, ◌-◌, ◌≡◌, refl, ap, ◌⊎◌, inl, inr, Option, none, some, List, [], ◌∷◌, ◌++◌, arith,
  ltb, leb, ◌==◌, if◌then◌else◌, Bytes, length, take, drop, length-append,
}

-- The texts that the code puts before an error it passes on (fmt.Errorf), and those of its own
-- errors.
pub data Text : Type 0 where
  failed_to_generate_salt failed_to_create_aead failed_to_read_salt : Text
  failed_to_decrypt failed_to_read_payload_size failed_to_read_payload : Text
  salt_is_too_short prefix_is_too_long unknown_cipher : Text
  could_not_find_valid_cipher reading_header_failed could_not_find_valid_tcp_cipher : Text
  failed_to_parse_target_address failed_to_write_target_address : Text
  failed_to_read_source_address serve_can_only_be_called_once : Text
  port_does_not_exist failed_to_close failed_to_start failed_to_create_cipher : Text
  failed_to_remove failed_to_start_port request_failed ret_invalid failed_to_dorun : Text
  failed_to_split_hostname_and_port failed_to_parse_address ip_lookup_failed : Text
  ip_lookup_returned_nil ip_lookup_has_empty_iso_code : Text
  endpoint_must_not_be_nil cipher_must_not_be_nil could_not_connect_to_endpoint : Text

-- `external n` is an error value that a library or the environment makes; `panic` stands for a Go
-- panic, which ends the call.
pub data Error : Type 0 where
  eof unexpected_eof short_buffer short_packet panic : Error
  external : ℕ → Error
  new : Text → Error
  wrap : Text → Error → Error

pub data Result {ℓ} (A : Type ℓ) : Type ℓ where
  err : Error → Result A
  ok : A → Result A

pub Result-cases {ℓ} :
    {A : Type ℓ} (r : Result A) → ((a : A) × (r ≡ ok a)) ⊎ ((e : Error) × (r ≡ err e))
Result-cases (ok a) = inl (a, refl)
Result-cases (err e) = inr (e, refl)

-- `x, err := ...; if err != nil { return err }`
abbrev pub ◌>>=◌ {ℓ κ} : {A : Type ℓ} {B : Type κ} → Result A → (A → Result B) → Result B
err e >>= next = err e
ok a >>= next = next a

infixl 5 ◌>>=◌
pub bind-ok {ℓ} : {A : Type ℓ} (r : Result A) → (r >>= λ a. ok a) ≡ r
bind-ok (ok a) = refl
bind-ok (err e) = refl

-- `if err != nil { return ... }`
abbrev pub on_error {ℓ} : {A : Type ℓ} → Option Error → (Error → A) → A → A
on_error (some e) stop go = stop e
on_error none stop go = go

pub on_error-go {ℓ} :
    {A : Type ℓ} (o : Option Error) (stop : Error → A) (go : A) → o ≡ none → on_error o stop go ≡ go
on_error-go o stop go h = ap (λ o. on_error o stop go) h

pub on_error-stop {ℓ} :
    {A : Type ℓ} (o : Option Error) (e : Error) (stop : Error → A) (go : A)
    → o ≡ some e
    → on_error o stop go ≡ stop e
on_error-stop o e stop go h = ap (λ o. on_error o stop go) h

-- What one Read call meets: bytes, and perhaps an error with them. A reader whose script has run
-- out is at its end.
abbrev pub Source : Type 0
Source = List (Bytes × Option Error)

-- All that a reader still gives before its first error, and that error.
abbrev pub content : Source → Bytes
content [] = []
content ((bs, none) ∷ src) = bs ++ content src
content ((bs, some e) ∷ src) = bs

abbrev pub ending : Source → Error
ending [] = eof
ending ((bs, none) ∷ src) = ending src
ending ((bs, some e) ∷ src) = e

-- The number of Read calls that a reader can answer before its end, by the bytes that it holds.
abbrev pub reads : Source → ℕ
reads [] = 1
reads ((bs, e) ∷ r) = suc (length bs + reads r)

-- r.Read(buf) with len(buf) = n: the bytes read, the error, and the reader afterwards. Bytes that
-- do not fit stay for the next call, with the error behind them.
unfoldable pub read : ℕ → Source → Bytes × Option Error × Source
read n [] = ([], some eof, [])
read n ((bs, e) ∷ src) =
    if leb (length bs) n then (bs, e, src) else (take n bs, none, (drop n bs, e) ∷ src)

-- The error of io.ReadFull after `got` bytes: EOF in the middle is unexpected.
abbrev pub full_error : Bytes → Error → Error
full_error [] e = e
full_error (b ∷ bs) eof = unexpected_eof
full_error (b ∷ bs) e = e

abbrev pub got_more : Bytes → Result Bytes × Source → Result Bytes × Source
got_more bs (ok more, src) = (ok (bs ++ more), src)
got_more bs (err e, src) = (err (full_error bs e), src)

-- io.ReadFull(r, buf) with len(buf) = n: Read until the buffer is full; an error that comes with
-- the last byte needed is dropped, as io.ReadAtLeast does.
unfoldable pub read_full : ℕ → Source → Result Bytes × Source
read_full n [] = (if n == 0 then ok [] else err eof, [])
read_full n ((bs, e) ∷ src) =
    let rest = read_full (n - length bs) src in
    if n == 0
    then (ok [], (bs, e) ∷ src)
    else if ltb n (length bs)
    then (ok (take n bs), (drop n bs, e) ∷ src)
    else if length bs == n
    then (ok bs, src)
    else elim e [ none ↦ got_more bs rest | some e' ↦ (err (full_error bs e'), src) ]

-- How one Write call ends: `fails k e` takes k bytes at most and returns e.
pub data Outcome : Type 0 where
  all : Outcome
  fails : ℕ → Error → Outcome

-- A writer whose script has run out takes everything.
pub record Sink : Type 0 where
  pub written : Bytes
  pub outcomes : List Outcome

abbrev pub write_as : Outcome → List Outcome → Bytes → Bytes → Sink × ℕ × Option Error
write_as all os old p = (record { written = old ++ p; outcomes = os }, length p, none)
write_as (fails k e) os old p =
    (record { written = old ++ take k p; outcomes = os }, length (take k p), some e)

abbrev pub write_next : List Outcome → Bytes → Bytes → Sink × ℕ × Option Error
write_next [] old p = write_as all [] old p
write_next (o ∷ os) old p = write_as o os old p

-- w.Write(p): the writer afterwards, the bytes taken, and the error.
unfoldable pub write : Sink → Bytes → Sink × ℕ × Option Error
write w p = write_next w.outcomes w.written p

abbrev pub IsReliable : Sink → Type 0
IsReliable w = w.outcomes ≡ []

pub write_reliable :
    (w : Sink) (p : Bytes)
    → IsReliable w
    → write w p ≡ (record { written = w.written ++ p; outcomes = [] }, length p, none)
unfolding write
write_reliable w p h = ground arith

-- What a Write says that it has taken is what has reached the writer.
pub write-written :
    (w : Sink) (p : Bytes)
    → (let (w', n, e) = write w p in length w'.written ≡ length w.written + n)
unfolding write
write-written w p = by_outcomes w.outcomes
  where
    by_outcomes :
        (os : List Outcome)
        → (let (w', n, e) = write_next os w.written p in length w'.written ≡ length w.written + n)
    by_outcomes [] = length-append w.written p
    by_outcomes (all ∷ os) = length-append w.written p
    by_outcomes (fails k e ∷ os) = length-append w.written (take k p)
