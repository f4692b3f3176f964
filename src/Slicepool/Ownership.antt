-- ===== src/Slicepool/Ownership.antt =====
-- No two users of a pool ever hold the same slice, and giving a slice back never panics.
use ssgo.Prelude.{
  ℕ, zero, suc, ◌+◌, ◌≤◌, ◌≡◌, ◌≢◌, refl, sym, ap, subst, inl, inr, true, false, List, [], ◌∷◌,
  Option, none, some, arith, ◌==◌, replicate, Bool-cases, All,
}
use ssgo.Slicepool.{
  Slice, Pool, make_pool, nth, without, new_slice, pooled, get, put, LazySlice, acquire, released,
  release,
}
use ssgo.Slicepool.Boxes.{
  Call, acquires, releases, drops, put_box, State, boxed, at_box, call, calls, count, held, Fits,
  HoldsFit, count-without, count-without_le, held-put_box, All-without, All-nth, All-put_box,
  held-two,
}

-- Every slice is in one place only, none of them is yet to be made, and all have the pool's length.
pub record IsOwned (s : State) : Type 0 where
  pub once : (i : ℕ) → count i (s.1).free + held i s.0 ≤ 1
  pub later : (i : ℕ) → (s.1).made ≤ i → count i (s.1).free + held i s.0 ≡ 0
  pub free_fits : All (Fits (s.1).len) (s.1).free
  pub held_fits : All (HoldsFit (s.1).len) s.0

make_pool-IsOwned : (n len : ℕ) → IsOwned (replicate n none, make_pool len)
unfolding make_pool
make_pool-IsOwned n len = record {
  once = λ i. omega (arith, nothing n i);
  later = λ i h. omega (arith, nothing n i);
  free_fits = tt;
  held_fits = all_empty n;
}
  where
    nothing : (n i : ℕ) → held i (replicate n none) ≡ 0
    nothing zero i = refl
    nothing (suc n) i = omega (arith, nothing n i)

    all_empty : (n : ℕ) → All (HoldsFit len) (replicate n none)
    all_empty zero = tt
    all_empty (suc n) = (tt, all_empty n)

-- A free slice goes into an empty box.
taken-IsOwned :
    (n : ℕ) (bs : List LazySlice) (p : Pool) (b : Slice) (k : ℕ)
    → nth n bs ≡ some none
    → nth k p.free ≡ some b
    → IsOwned (bs, p)
    → IsOwned (put_box n (some b) bs, record p { free = without k p.free })
taken-IsOwned n bs p b k empty there o = record {
  once = λ i.
      omega (
        arith,
        o.once i,
        held-put_box i n bs none (some b) empty,
        count-without i k p.free b there,
      );
  later = λ i h. omega (
    arith,
    o.later i h,
    held-put_box i n bs none (some b) empty,
    count-without i k p.free b there,
  );
  free_fits = All-without (Fits p.len) k p.free o.free_fits;
  held_fits =
      All-put_box (HoldsFit p.len) n (some b) bs (All-nth (Fits p.len) k p.free b there o.free_fits)
        o.held_fits;
}

new_slice-IsOwned :
    (n : ℕ) (bs : List LazySlice) (p : Pool)
    → nth n bs ≡ some none
    → IsOwned (bs, p)
    → IsOwned (put_box n (some (new_slice p).0) bs, (new_slice p).1)
new_slice-IsOwned n bs p empty o = record {
  once = λ i. elim (Bool-cases (i == p.made)) [
    | inl new ↦
        let i_made : p.made ≤ i = ground arith in
        ground (arith, o.later i i_made, held-put_box i n bs none (some (new_slice p).0) empty)
    | inr old ↦ ground (arith, o.once i, held-put_box i n bs none (some (new_slice p).0) empty)
  ];
  later = λ i h.
      let not_made : (i == p.made) ≡ false = ground arith in
      let i_made : p.made ≤ i = omega arith in
      ground (arith, o.later i i_made, held-put_box i n bs none (some (new_slice p).0) empty);
  free_fits = o.free_fits;
  held_fits = All-put_box (HoldsFit p.len) n (some (new_slice p).0) bs (refl, refl) o.held_fits;
}

given-IsOwned :
    (n : ℕ) (bs : List LazySlice) (p : Pool) (b : Slice)
    → nth n bs ≡ some (some b)
    → IsOwned (bs, p)
    → IsOwned (put_box n none bs, record p { free = b ∷ p.free })
given-IsOwned n bs p b there o = record {
  once = λ i. omega (arith, o.once i, held-put_box i n bs (some b) none there);
  later = λ i h. omega (arith, o.later i h, held-put_box i n bs (some b) none there);
  free_fits = (All-nth (HoldsFit p.len) n bs (some b) there o.held_fits, o.free_fits);
  held_fits = All-put_box (HoldsFit p.len) n none bs tt o.held_fits;
}

-- Releasing an empty box changes nothing.
empty-IsOwned :
    (n : ℕ) (bs : List LazySlice) (p : Pool)
    → nth n bs ≡ some none
    → IsOwned (bs, p)
    → IsOwned (put_box n none bs, p)
empty-IsOwned n bs p e o = record {
  once = λ i. omega (arith, o.once i, held-put_box i n bs none none e);
  later = λ i h. omega (arith, o.later i h, held-put_box i n bs none none e);
  free_fits = o.free_fits;
  held_fits = All-put_box (HoldsFit p.len) n none bs tt o.held_fits;
}

-- A slice that is held can be given back.
put-Fits : (b : Slice) (p : Pool) → Fits p.len b → put b p ≡ some (record p { free = b ∷ p.free })
unfolding put
put-Fits b p (size, capacity) =
    let s : (b.size == p.len) ≡ true = ground arith in
    let c : (b.capacity == p.len) ≡ true = ground arith in rw (s, c) refl

-- Unless the call panics.
abbrev Owned : Option State → Type 0
Owned none = Unit
Owned (some s) = IsOwned s

acquire-Owned :
    (n : ℕ) (choice : Option ℕ) (bs : List LazySlice) (p : Pool) (x : Option LazySlice)
    → nth n bs ≡ x
    → IsOwned (bs, p)
    → Owned (at_box (λ b. acquire choice b p) n (bs, p) x)
unfolding acquire get
acquire-Owned n choice bs p none e o = o
acquire-Owned n choice bs p (some (some b)) e o = tt
acquire-Owned n none bs p (some none) e o = new_slice-IsOwned n bs p e o
acquire-Owned n (some k) bs p (some none) e o = by_choice (nth k p.free) refl
  where
    by_choice :
        (c : Option Slice)
        → nth k p.free ≡ c
        → IsOwned (put_box n (some (pooled p k c).0) bs, (pooled p k c).1)
    by_choice none f = new_slice-IsOwned n bs p e o
    by_choice (some b) f = taken-IsOwned n bs p b k e f o

release-put :
    (b : Slice) (p : Pool)
    → Fits p.len b
    → release (some b) p ≡ some (none, record p { free = b ∷ p.free })
unfolding release
release-put b p f = ap released (put-Fits b p f)

release-Owned :
    (n : ℕ) (bs : List LazySlice) (p : Pool) (x : Option LazySlice)
    → nth n bs ≡ x
    → IsOwned (bs, p)
    → Owned (at_box (λ b. release b p) n (bs, p) x)
unfolding release
release-Owned n bs p none e o = o
release-Owned n bs p (some none) e o = empty-IsOwned n bs p e o
release-Owned n bs p (some (some b)) e o =
    subst (λ r. Owned (boxed n bs r))
      (sym (release-put b p (All-nth (HoldsFit p.len) n bs (some b) e o.held_fits)))
      (given-IsOwned n bs p b e o)

call-Owned : (c : Call) (s : State) → IsOwned s → Owned (call c s)
unfolding call
call-Owned (acquires n choice) (bs, p) o = acquire-Owned n choice bs p (nth n bs) refl o
call-Owned (releases n) (bs, p) o = release-Owned n bs p (nth n bs) refl o
call-Owned (drops k) (bs, p) o = record {
  once = λ i. omega (arith, o.once i, count-without_le i k p.free);
  later = λ i h. omega (arith, o.later i h, count-without_le i k p.free);
  free_fits = All-without (Fits p.len) k p.free o.free_fits;
  held_fits = o.held_fits;
}

calls-Owned : (cs : List Call) (s : State) → IsOwned s → Owned (calls cs s)
unfolding calls
calls-Owned [] s o = o
calls-Owned (c ∷ cs) s o = next (call c s) (call-Owned c s o) (λ s' w. calls-Owned cs s' w)
  where
    next :
        (x : Option State)
        → Owned x
        → ((s' : State) → IsOwned s' → Owned (calls cs s'))
        → Owned (elim x [ none ↦ none | some s' ↦ calls cs s' ])
    next none w rest = tt
    next (some s') w rest = rest s' w

-- After any calls on a new pool and empty boxes that end without a panic, two boxes never hold
-- the same slice, a slice that is held has the pool's length, and releasing it does not panic.
pub no_shared_slice :
    (n len : ℕ) (cs : List Call) (bs : List LazySlice) (p : Pool) (a b : ℕ) (x y : Slice)
    → calls cs (replicate n none, make_pool len) ≡ some (bs, p)
    → a ≢ b
    → nth a bs ≡ some (some x)
    → nth b bs ≡ some (some y)
    → (x.id ≢ y.id)
      × (x.size ≡ p.len)
      × (release (some x) p ≡ some (none, record p { free = x ∷ p.free }))
no_shared_slice n len cs bs p a b x y run apart h k =
    let o =
      subst Owned run
        (calls-Owned cs (replicate n none, make_pool len) (make_pool-IsOwned n len)) in
    let f = All-nth (HoldsFit p.len) a bs (some x) h o.held_fits in
    (
      λ same. absurd (ground (arith, o.once x.id, held-two x.id a b bs x y apart h k)),
      f.0,
      release-put x p f,
    )
