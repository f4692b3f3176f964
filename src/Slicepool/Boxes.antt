-- ===== src/Slicepool/Boxes.antt =====
-- Many users of a pool: boxes that acquire and release, and the count of where a slice is.
use ssgo.Prelude.{
  ℕ, zero, suc, ◌+◌, ◌≤◌, ◌≡◌, ◌≢◌, refl, sym, ap, subst, List, [], ◌∷◌, Option, none, some, arith,
  ◌==◌, if◌then◌else◌, All,
}
use ssgo.Slicepool.{Slice, Pool, nth, without, LazySlice, acquire, release}

-- What happens to a pool and its boxes: a box acquires or releases, or sync.Pool drops a free
-- slice.
pub data Call : Type 0 where
  acquires : ℕ → Option ℕ → Call
  releases : ℕ → Call
  drops : ℕ → Call

abbrev pub put_box : ℕ → LazySlice → List LazySlice → List LazySlice
put_box n x [] = []
put_box zero x (b ∷ bs) = x ∷ bs
put_box (suc n) x (b ∷ bs) = b ∷ put_box n x bs

abbrev pub State : Type 0
State = List LazySlice × Pool

abbrev pub boxed : ℕ → List LazySlice → Option (LazySlice × Pool) → Option State
boxed n bs none = none
boxed n bs (some (x, p)) = some (put_box n x bs, p)

abbrev pub at_box :
    (LazySlice → Option (LazySlice × Pool)) → ℕ → State → Option LazySlice → Option State
at_box f n s none = some s
at_box f n s (some b) = boxed n s.0 (f b)

unfoldable pub call : Call → State → Option State
call (acquires n choice) s = at_box (λ b. acquire choice b s.1) n s (nth n s.0)
call (releases n) s = at_box (λ b. release b s.1) n s (nth n s.0)
call (drops k) s = some (s.0, record (s.1) { free = without k (s.1).free })

-- A sequence of calls, up to a panic.
unfoldable pub calls : List Call → State → Option State
unfolding call
calls [] s = some s
calls (c ∷ cs) s = elim (call c s) [ none ↦ none | some s' ↦ calls cs s' ]

-- How often a slice is free, and how often it is held.
abbrev pub one : ℕ → ℕ → ℕ
one i j = if i == j then 1 else 0

abbrev pub count : ℕ → List Slice → ℕ
count i [] = 0
count i (b ∷ bs) = one i b.id + count i bs

abbrev pub held_by : ℕ → LazySlice → ℕ
held_by i none = 0
held_by i (some b) = one i b.id

abbrev pub held : ℕ → List LazySlice → ℕ
held i [] = 0
held i (x ∷ xs) = held_by i x + held i xs

abbrev pub Fits : ℕ → Slice → Type 0
Fits n b = (b.size ≡ n) × (b.capacity ≡ n)

abbrev pub HoldsFit : ℕ → LazySlice → Type 0
HoldsFit n none = Unit
HoldsFit n (some b) = Fits n b

pub count-without :
    (i k : ℕ) (l : List Slice) (b : Slice)
    → nth k l ≡ some b
    → one i b.id + count i (without k l) ≡ count i l
count-without i k [] b h = ground arith
count-without i zero (x ∷ l) b h =
    let same : x ≡ b = ground arith in ap (λ y. one i y.id + count i l) (sym same)
count-without i (suc k) (x ∷ l) b h = omega (arith, count-without i k l b h)

pub count-without_le : (i k : ℕ) (l : List Slice) → count i (without k l) ≤ count i l
count-without_le i k [] = omega arith
count-without_le i zero (x ∷ l) = omega arith
count-without_le i (suc k) (x ∷ l) = omega (arith, count-without_le i k l)

pub held-put_box :
    (i n : ℕ) (bs : List LazySlice) (b x : LazySlice)
    → nth n bs ≡ some b
    → held_by i b + held i (put_box n x bs) ≡ held_by i x + held i bs
held-put_box i n [] b x h = ground arith
held-put_box i zero (y ∷ bs) b x h =
    let same : y ≡ b = ground arith in omega (arith, ap (held_by i) same)
held-put_box i (suc n) (y ∷ bs) b x h = omega (arith, held-put_box i n bs b x h)

module _ {A : Type 0} (P : A → Type 0) where
  pub All-without : (k : ℕ) (l : List A) → All P l → All P (without k l)
  All-without k [] h = tt
  All-without zero (x ∷ l) h = h.1
  All-without (suc k) (x ∷ l) h = (h.0, All-without k l h.1)

  pub All-nth : (k : ℕ) (l : List A) (b : A) → nth k l ≡ some b → All P l → P b
  All-nth k [] b e h = ground arith
  All-nth zero (x ∷ l) b e h = let same : x ≡ b = ground arith in subst P same h.0
  All-nth (suc k) (x ∷ l) b e h = All-nth k l b e h.1

pub All-put_box :
    (P : LazySlice → Type 0) (n : ℕ) (x : LazySlice) (bs : List LazySlice)
    → P x
    → All P bs
    → All P (put_box n x bs)
All-put_box P n x [] p h = tt
All-put_box P zero x (b ∷ bs) p h = (p, h.1)
All-put_box P (suc n) x (b ∷ bs) p h = (h.0, All-put_box P n x bs p h.1)

held-one :
    (i a : ℕ) (bs : List LazySlice) (x : Slice) → nth a bs ≡ some (some x) → one i x.id ≤ held i bs
held-one i a [] x h = ground arith
held-one i zero (y ∷ bs) x h =
    let same : y ≡ some x = ground arith in omega (arith, ap (held_by i) same)
held-one i (suc a) (y ∷ bs) x h = omega (arith, held-one i a bs x h)

pub held-two :
    (i a b : ℕ) (bs : List LazySlice) (x y : Slice)
    → a ≢ b
    → nth a bs ≡ some (some x)
    → nth b bs ≡ some (some y)
    → one i x.id + one i y.id ≤ held i bs
held-two i a b [] x y apart h k = ground arith
held-two i zero zero (z ∷ bs) x y apart h k = absurd (apart refl)
held-two i zero (suc b) (z ∷ bs) x y apart h k =
    let same : z ≡ some x = ground arith in omega (arith, ap (held_by i) same, held-one i b bs y k)
held-two i (suc a) zero (z ∷ bs) x y apart h k =
    let same : z ≡ some y = ground arith in omega (arith, ap (held_by i) same, held-one i a bs x h)
held-two i (suc a) (suc b) (z ∷ bs) x y apart h k =
    omega (arith, held-two i a b bs x y (λ e. apart (ap suc e)) h k)
