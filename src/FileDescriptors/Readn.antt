-- ===== src/FileDescriptors/Readn.antt =====
-- The loop of readn in mit-6.828/lab/lib/fd.c ends.
use papers_annotation.Prelude.{
  ℕ, zero, suc, ◌+◌, ◌-◌, ◌≤◌, ◌≡◌, refl, arith, true, false, ltb, List, dec_lt,
}
use papers_annotation.Prelude.Int.{ℤ, pos, negsuc}
use papers_annotation.FileDescriptors.{Process, Dev, read, read_more, read_on, readn}

read_more-same :
    (devtab : List Dev) (go go' : ℕ → Process → ℤ × Process) (tot : ℕ) (r : ℤ × Process)
    → ((m : ℕ) (p : Process) → go (tot + suc m) p ≡ go' (tot + suc m) p)
    → read_more devtab go tot r ≡ read_more devtab go' tot r
read_more-same devtab go go' tot (negsuc m, p) h = refl
read_more-same devtab go go' tot (pos zero, p) h = refl
read_more-same devtab go go' tot (pos (suc m), p) h = h m p

read_on-enough :
    (devtab : List Dev) (fdnum buf n a b tot : ℕ) (p : Process)
    → n ≤ tot + a
    → n ≤ tot + b
    → read_on devtab a fdnum buf tot n p ≡ read_on devtab b fdnum buf tot n p
read_on-enough devtab fdnum buf n zero zero tot p h g = refl
read_on-enough devtab fdnum buf n zero (suc b) tot p h g =
    let t : ltb tot n ≡ false = ground arith in rw t refl
read_on-enough devtab fdnum buf n (suc a) zero tot p h g =
    let t : ltb tot n ≡ false = ground arith in rw t refl
read_on-enough devtab fdnum buf n (suc a) (suc b) tot p h g = elim (dec_lt tot n) [
  | no full ↦ let t : ltb tot n ≡ false = ground arith in rw t refl
  | yes room ↦
      let t : ltb tot n ≡ true = ground arith in
      rw t (
        read_more-same devtab (λ tot p. read_on devtab a fdnum buf tot n p)
          (λ tot p. read_on devtab b fdnum buf tot n p) tot
          (read devtab fdnum (buf + tot) (n - tot) p)
          (λ m p.
            read_on-enough devtab fdnum buf n a b (tot + suc m) p (omega arith) (omega arith)))
]

-- readn makes at most n reads: with more rounds than the n that it is given its result is the same.
pub readn-enough :
    (devtab : List Dev) (fdnum buf n rounds : ℕ) (p : Process)
    → n ≤ rounds
    → read_on devtab rounds fdnum buf 0 n p ≡ readn devtab fdnum buf n p
unfolding readn
readn-enough devtab fdnum buf n rounds p h =
    read_on-enough devtab fdnum buf n rounds n 0 p (omega arith) (omega arith)
