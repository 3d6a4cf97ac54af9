-- ===== src/GoLib/Writer.antt =====
-- `io.Writer`: an interface that the caller provides, with the contract that its documentation
-- states. `W` is the state of the writer, and `sink` what the other side has received.
use fizzbuzz.Prelude.{
  ℕ, ◌+◌, ◌%◌, ◌≤◌, ◌<◌, ◌≡◌, refl, sym, ap, ◌∙◌, Bool, true, false, [], ◌++◌, append_assoc,
  if◌then◌else◌, append-nil, Bytes, arith, length, length-append, take, take-all, take-append-le,
  take-append-add, two_64,
}

-- `n, err := w.Write(b)`; `failed` says that err is not nil.
pub record Written (W : Type 0) : Type 0 where
  pub w : W
  pub n : ℕ
  pub failed : Bool

pub record Writer (W : Type 0) : Type 0 where
  pub write : W → Bytes → Written W

-- "Write returns the number of bytes written from p (0 <= n <= len(p)) and any error that caused
-- the write to stop early. Write must return a non-nil error if it returns n < len(p)."
pub record IsWriter {W : Type 0} (o : Writer W) (sink : W → Bytes) : Type 0 where
  pub counted : (w : W) (b : Bytes) → (o.write w b).n ≤ length b
  pub delivered : (w : W) (b : Bytes) → sink (o.write w b).w ≡ sink w ++ take (o.write w b).n b
  pub complete : (w : W) (b : Bytes) → (o.write w b).failed ≡ false → (o.write w b).n ≡ length b

-- From `w` on, a prefix of `b` was delivered and counted; without an error, all of it.
pub record Sent {W : Type 0} (sink : W → Bytes) (w : W) (count : ℕ) (r : Written W) (b : Bytes)
    : Type 0 where
  pub k : ℕ
  pub bounded : k ≤ length b
  pub received : sink r.w ≡ sink w ++ take k b
  pub counts : r.n ≡ (count + k) % two_64
  pub all : r.failed ≡ false → k ≡ length b

module _ {W : Type 0} (sink : W → Bytes) where
  pub Sent-nothing : (r : Written W) → r.n < two_64 → Sent sink r.w r.n r []
  Sent-nothing r small = record {
    k = 0;
    bounded = omega arith;
    received = sym (append-nil (sink r.w));
    counts = omega arith;
    all = λ e. refl;
  }

  -- One call of `Write`, whose count is added to `count`.
  pub Sent-write :
      (o : Writer W)
      → IsWriter o sink
      → (w : W) (count : ℕ) (b : Bytes)
      → Sent sink w count
          (record {
            w = (o.write w b).w;
            n = (count + (o.write w b).n) % two_64;
            failed = (o.write w b).failed;
          })
          b
  Sent-write o ok w count b = record {
    k = (o.write w b).n;
    bounded = ok.counted w b;
    received = ok.delivered w b;
    counts = refl;
    all = ok.complete w b;
  }

  -- An error ends the whole.
  pub Sent-failed :
      {w : W} {count : ℕ} {r : Written W} {b : Bytes} (b' : Bytes)
      → r.failed ≡ true
      → Sent sink w count r b
      → Sent sink w count r (b ++ b')
  Sent-failed {w} {count} {r} {b} b' bad s = record {
    k = s.k;
    bounded = omega (arith, s.bounded, length-append b b');
    received =
        s.received ∙ ap (λ (t : Bytes). sink w ++ t) (sym (take-append-le s.k b b' s.bounded));
    counts = s.counts;
    all = λ e. absurd (ground arith);
  }

  pub Sent-trans :
      {w : W} {count : ℕ} {r r' : Written W} {b b' : Bytes}
      → r.failed ≡ false
      → Sent sink w count r b
      → Sent sink r.w r.n r' b'
      → Sent sink w count r' (b ++ b')
  Sent-trans {w} {count} {r} {r'} {b} {b'} good s t =
      let whole : take s.k b ≡ b = take-all s.k b (omega (arith, s.all good)) in
      record {
        k = length b + t.k;
        bounded = omega (arith, t.bounded, length-append b b');
        received = t.received ∙ rw (s.received, whole, take-append-add b b' t.k, append_assoc) refl;
        counts = omega (arith, t.counts, s.counts, s.all good);
        all = λ e. omega (arith, t.all e, length-append b b');
      }

  -- A call, and what follows unless it failed: `if err != nil { return }`.
  pub Sent-step :
      {w : W} {count : ℕ} {r : Written W} {b : Bytes} (rest : Written W) (b' : Bytes)
      → Sent sink w count r b
      → (r.failed ≡ false → Sent sink r.w r.n rest b')
      → Sent sink w count (if r.failed then r else rest) (b ++ b')
  Sent-step {w} {count} {r} {b} rest b' s t = go r.failed refl
    where
      go : (x : Bool) → r.failed ≡ x → Sent sink w count (if x then r else rest) (b ++ b')
      go true bad = Sent-failed b' bad s
      go false good = Sent-trans good s (t good)
