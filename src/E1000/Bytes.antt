-- ===== src/E1000/Bytes.antt =====
-- The bytes of a frame in a buffer, and the flags of a descriptor, in mit-6.828/lab/kern/e1000.c.
use papers_annotation.Prelude.{
  ℕ, zero, suc, ◌<◌, ◌≡◌, refl, ap, arith, true, false, List, [], ◌∷◌, length, get_or, bit_and,
  bit_or, lt→ltb,
}
use papers_annotation.Prelude.Bits.{bit_and-bit, bit_or-bit}
use papers_annotation.Mmu.{test_bit}
use papers_annotation.E1000.{TxDesc, put_bytes, bytes, is_waiting, filled}

pub bytes-cong : (n : ℕ) (f g : ℕ → ℕ) → ((i : ℕ) → i < n → f i ≡ g i) → bytes n f ≡ bytes n g
bytes-cong zero f g h = refl
bytes-cong (suc n) f g h =
    rw
      (
        h 0 (omega arith),
        bytes-cong n (λ i. f (suc i)) (λ i. g (suc i)) (λ i l. h (suc i) (omega arith)),
      )
      refl

pub bytes-put_bytes : (n : ℕ) (src old : ℕ → ℕ) → bytes n (put_bytes n src old) ≡ bytes n src
bytes-put_bytes n src old = bytes-cong n (put_bytes n src old) src λ i l. rw (lt→ltb i n l) refl

pub bytes-get_or : (xs : List ℕ) → bytes (length xs) (λ i. get_or xs i 0) ≡ xs
bytes-get_or [] = refl
bytes-get_or (x ∷ xs) = ap (λ t. x ∷ t) (bytes-get_or xs)

pub length-bytes : (n : ℕ) (f : ℕ → ℕ) → length (bytes n f) ≡ n
length-bytes zero f = refl
length-bytes (suc n) f = ap suc (length-bytes n (λ i. f (suc i)))

-- DD cleared.
pub test_bit-clear : (st : ℕ) → test_bit (bit_and st 0xFE) 0 ≡ false
test_bit-clear st = ground (arith, bit_and-bit 0 st 0xFE)

test_bit-ask : (cmd : ℕ) → test_bit (bit_or cmd 9) 3 ≡ true
test_bit-ask cmd = ground (arith, bit_or-bit 3 cmd 9)

pub filled-is_waiting : (size : ℕ) (d : TxDesc) → is_waiting (filled size d) ≡ true
filled-is_waiting size d = rw (test_bit-ask d.cmd, test_bit-clear d.status) refl

pub done-is_waiting :
    (d : TxDesc) (st : ℕ) → test_bit st 0 ≡ true → is_waiting (record d { status = st }) ≡ false
done-is_waiting d st h = rw h (ground arith)
