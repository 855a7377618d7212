-- ===== src/FileDescriptors/Tests.antt =====
-- Descriptors of a small program, for the theorems on mit-6.828/lab/lib/fd.c.
use papers_annotation.Prelude.{
  ℕ, ◌<◌, ◌≡◌, ◌⊎◌, refl, arith, none, some, true, false, Bool, List, [], ◌∷◌, ◌==◌, if◌then◌else◌,
}
use papers_annotation.Prelude.Int.{pos, negsuc, is_neg}
use papers_annotation.FileDescriptors.{
  maxfd, e_max_open, index2fd, Process, Dev, found, fd_alloc, fd_lookup, close, dup, seek, readn,
  read,
}
use papers_annotation.FileDescriptors.Table.{IsOpen, fd_alloc_lem}
use papers_annotation.FileDescriptors.Dup.{IsDup, dup_shares, dup_self}

-- A device without a close; a read yields at most three bytes at a time.
abbrev console : Dev
console = record {
  dev_id = 0x63;
  dev_read = some (λ fd buf n p. (pos (if n == 1 then 1 else if n == 2 then 2 else 3), p));
  dev_write = none;
  dev_close = none;
  dev_trunc = none;
}

abbrev one_device : List Dev
one_device = console ∷ []

abbrev tables : ℕ → Bool
tables va = false

-- Descriptor 0 is open, on page 40, with data page 41.
abbrev program : Process
program = record {
  space = λ va. if va == 0xD0000000 then some 40 else if va == 0xD0020000 then some 41 else none;
  fds = λ g. record { fd_dev_id = 0x63; fd_offset = 0; fd_omode = 2; fd_file = 0 };
}

fd_alloc_example :
    ((j : ℕ) × (j < maxfd)
      × (program.space (index2fd j) ≡ none)
      × ((m : ℕ) → m < j → IsOpen program m)
      × (fd_alloc program ≡ (pos 0, index2fd j)))
    ⊎ (((m : ℕ) → m < maxfd → IsOpen program m) × (fd_alloc program ≡ (e_max_open, 0)))
fd_alloc_example = fd_alloc_lem program

close_1 : close one_device 1 program ≡ (negsuc 2, program)
unfolding close fd_lookup
close_1 = refl

dup_shares_example :
    (p2 : Process) × (dup one_device tables 0 1 program ≡ (pos 1, p2))
    × IsDup 0 1 40 program p2
    × ((offset : ℕ)
        → (p3 : Process) × (seek 1 offset p2 ≡ (pos 0, p3))
          × (fd_lookup 0 p3 ≡ found (index2fd 0) 40)
          × ((p3.fds 40).fd_offset ≡ offset))
dup_shares_example =
    dup_shares one_device tables 0 1 40 program program (negsuc 2) (omega arith) (omega arith)
      (omega arith) refl close_1 refl refl refl

dup_self_example :
    (is_neg (dup one_device tables 0 0 program).0 ≡ true)
    × ((dup one_device tables 0 0 program).1.space (index2fd 0) ≡ none)
dup_self_example = dup_self one_device tables 0 40 program (omega arith) refl

-- A number outside the table is mapped all the same: 32 is the data page of descriptor 0.
dup_outside : (dup one_device tables 0 32 program).1.space 0xD0020000 ≡ some 40
unfolding dup close fd_lookup
dup_outside = refl

-- Three reads.
readn_7 : (readn one_device 0 0x800000 7 program).0 ≡ pos 7
unfolding readn read fd_lookup
readn_7 = refl
