-- ===== src/FileDescriptors.antt =====
-- The file descriptors of a program: mit-6.828/lab/lib/fd.c but for stat, over any table of devices.
pub mod Table
pub mod Dup
pub mod Readn
mod Tests
use papers_annotation.Prelude.{
  ℕ, zero, suc, ◌+◌, ◌-◌, ◌*◌, ◌/◌, ◌%◌, ◌^◌, Option, none, some, Bool, true, false, not, ◌&&◌, ltb,
  leb, ◌==◌, if◌then◌else◌, List, [], ◌∷◌, update,
}
use papers_annotation.Prelude.Int.{ℤ, pos, negsuc, is_neg}
use papers_annotation.Mmu.{u32, pgsize, utop, e_inval, e_no_mem}

abbrev pub maxfd : ℕ
maxfd = 32

abbrev pub fdtable : ℕ
fdtable = 0xD0000000

abbrev pub filedata : ℕ
filedata = fdtable + maxfd * pgsize

abbrev pub e_max_open : ℤ
e_max_open = negsuc 9

abbrev pub e_not_supp : ℤ
e_not_supp = negsuc 14

-- A descriptor's number is the 32-bit pattern of an int.
abbrev pub index2fd : ℕ → ℕ
index2fd i = u32 (fdtable + i * pgsize)

abbrev pub index2data : ℕ → ℕ
index2data i = u32 (filedata + i * pgsize)

abbrev pub fd2num : ℕ → ℕ
fd2num fd = u32 (fd + 2 ^ 32 - fdtable) / pgsize

abbrev pub fd2data : ℕ → ℕ
fd2data fd = index2data (fd2num fd)

-- `fd_file` is the union of the file's and the socket's number.
pub record Fd : Type 0 where
  pub fd_dev_id : ℕ
  pub fd_offset : ℕ
  pub fd_omode : ℕ
  pub fd_file : ℕ

-- What a program sees: the page that is mapped at each page address, and the struct Fd at the start of
-- each page. Two addresses may have the same page.
pub record Process : Type 0 where
  pub space : ℕ → Option ℕ
  pub fds : ℕ → Fd

-- The operations of a device that it may lack.
pub record Dev : Type 0 where
  pub dev_id : ℕ
  pub dev_read : Option (ℕ → ℕ → ℕ → Process → ℤ × Process)
  pub dev_write : Option (ℕ → ℕ → ℕ → Process → ℤ × Process)
  pub dev_close : Option (ℕ → Process → ℤ × Process)
  pub dev_trunc : Option (ℕ → ℕ → Process → ℤ × Process)

-- What fd_lookup finds: the address of the descriptor and the page there.
pub data Lookup : Type 0 where
  failed : ℤ → Lookup
  found : ℕ → ℕ → Lookup

abbrev pub first_free : ℕ → ℕ → Process → ℤ × ℕ
first_free zero i p = (e_max_open, 0)
first_free (suc rounds) i p = elim (p.space (index2fd i)) [
  | none ↦ (pos 0, index2fd i)
  | some page ↦ first_free rounds (i + 1) p
]

-- The result and *fd_store.
unfoldable pub fd_alloc : Process → ℤ × ℕ
fd_alloc p = first_free maxfd 0 p

unfoldable pub fd_lookup : ℕ → Process → Lookup
fd_lookup fdnum p = if leb maxfd fdnum then failed e_inval else elim (p.space (index2fd fdnum)) [
  | none ↦ failed e_inval
  | some page ↦ found (index2fd fdnum) page
]

-- sys_page_unmap of the program's own page.
abbrev pub unmap : ℕ → Process → Process
unmap va p = if ltb va utop then record p { space = update p.space va none } else p

-- sys_page_map from and to the program itself, with permissions that the page has; `no_table` is true
-- at an address for which there is no page table and no memory for one.
abbrev pub map_own : (ℕ → Bool) → ℕ → ℕ → Process → ℤ × Process
map_own no_table src dst p = elim (p.space src) [
  | none ↦ (e_inval, p)
  | some page ↦
      if leb utop dst
      then (e_inval, p)
      else if no_table dst
      then (e_no_mem, p)
      else (pos 0, record p { space = update p.space dst (some page) })
]

abbrev pub dev_lookup : ℕ → List Dev → Option Dev
dev_lookup dev_id [] = none
dev_lookup dev_id (d ∷ ds) = if d.dev_id == dev_id then some d else dev_lookup dev_id ds

module _ (no_table : ℕ → Bool) where
  abbrev pub give_up : ℕ → ℕ → ℤ × Process → ℤ × Process
  give_up newfd nva (r, p) = (r, unmap nva (unmap newfd p))

  -- The label err, if the last call failed.
  abbrev pub or_give_up : ℕ → ℕ → ℤ → ℤ × Process → ℤ × Process
  or_give_up newfd nva result (r, p) = if is_neg r then give_up newfd nva (r, p) else (result, p)

  -- The data page, if the old descriptor has one.
  abbrev pub map_data : ℕ → ℕ → Process → ℤ × Process
  map_data ova nva p = elim (p.space ova) [
    | none ↦ (pos 0, p)
    | some page ↦ map_own no_table ova nva p
  ]

  abbrev pub map_fd : ℕ → ℕ → ℕ → ℕ → ℤ × Process → ℤ × Process
  map_fd oldfd newfd nva newfdnum (r, p) =
      if is_neg r
      then give_up newfd nva (r, p)
      else or_give_up newfd nva (pos newfdnum) (map_own no_table oldfd newfd p)

module _ (devtab : List Dev) where
  -- dev_lookup and the device's own close.
  abbrev pub close_dev : ℕ → ℕ → Process → ℤ × Process
  close_dev fd page p = elim (dev_lookup (p.fds page).fd_dev_id devtab) [
    | none ↦ (e_inval, p)
    | some dev ↦ elim dev.dev_close [ none ↦ (pos 0, p) | some f ↦ f fd p ]
  ]

  abbrev pub then_unmap : ℕ → ℤ × Process → ℤ × Process
  then_unmap fd (r, p) = (r, unmap fd p)

  unfoldable pub fd_close : ℕ → Bool → Process → ℤ × Process
  unfolding fd_lookup
  fd_close fd must_exist p = elim (fd_lookup (fd2num fd) p) [
    | failed r ↦ (if must_exist then r else pos 0, p)
    | found fd2 page ↦ if fd == fd2 then then_unmap fd (close_dev fd page p) else (pos 0, p)
  ]

  unfoldable pub close : ℕ → Process → ℤ × Process
  unfolding fd_close
  close fdnum p = elim (fd_lookup fdnum p) [
    | failed r ↦ (r, p)
    | found fd page ↦ fd_close fd true p
  ]

  abbrev pub close_from : ℕ → ℕ → Process → Process
  close_from zero i p = p
  close_from (suc rounds) i p = close_from rounds (i + 1) (close i p).1

  unfoldable pub close_all : Process → Process
  unfolding close
  close_all p = close_from maxfd 0 p

  unfoldable pub dup : (ℕ → Bool) → ℕ → ℕ → Process → ℤ × Process
  unfolding close
  dup no_table oldfdnum newfdnum p = elim (fd_lookup oldfdnum p) [
    | failed r ↦ (r, p)
    | found oldfd page ↦
        let p1 = (close newfdnum p).1 in
        let newfd = index2fd newfdnum in
        let nva = fd2data newfd in
        map_fd no_table oldfd newfd nva newfdnum (map_data no_table (fd2data oldfd) nva p1)
  ]

  -- fd_lookup, dev_lookup, and then the call's own part.
  abbrev pub with_dev : (ℕ → Fd → Dev → Process → ℤ × Process) → ℕ → Process → ℤ × Process
  with_dev body fdnum p = elim (fd_lookup fdnum p) [
    | failed r ↦ (r, p)
    | found fd page ↦ elim (dev_lookup (p.fds page).fd_dev_id devtab) [
      | none ↦ (e_inval, p)
      | some dev ↦ body fd (p.fds page) dev p
    ]
  ]

  unfoldable pub read : ℕ → ℕ → ℕ → Process → ℤ × Process
  unfolding fd_lookup
  read fdnum buf n =
      with_dev
        (λ fd f dev p.
          if f.fd_omode % 4 == 1
          then (e_inval, p)
          else elim dev.dev_read [ none ↦ (e_not_supp, p) | some op ↦ op fd buf n p ])
        fdnum

  unfoldable pub write : ℕ → ℕ → ℕ → Process → ℤ × Process
  unfolding fd_lookup
  write fdnum buf n =
      with_dev
        (λ fd f dev p.
          if f.fd_omode % 4 == 0
          then (e_inval, p)
          else elim dev.dev_write [ none ↦ (e_not_supp, p) | some op ↦ op fd buf n p ])
        fdnum

  unfoldable pub ftruncate : ℕ → ℕ → Process → ℤ × Process
  unfolding fd_lookup
  ftruncate fdnum newsize =
      with_dev
        (λ fd f dev p.
          if f.fd_omode % 4 == 0
          then (e_inval, p)
          else elim dev.dev_trunc [ none ↦ (e_not_supp, p) | some op ↦ op fd newsize p ])
        fdnum

  -- After a read of readn's loop; `go` is the rest of the loop.
  abbrev pub read_more : (ℕ → Process → ℤ × Process) → ℕ → ℤ × Process → ℤ × Process
  read_more go tot (negsuc m, p) = (negsuc m, p)
  read_more go tot (pos zero, p) = (pos tot, p)
  read_more go tot (pos (suc m), p) = go (tot + suc m) p

  -- The loop with a number of rounds left; each but the last reads a byte at least.
  abbrev pub read_on : ℕ → ℕ → ℕ → ℕ → ℕ → Process → ℤ × Process
  read_on zero fdnum buf tot n p = (pos tot, p)
  read_on (suc rounds) fdnum buf tot n p =
      if ltb tot n
      then read_more (λ tot p. read_on rounds fdnum buf tot n p) tot
          (read fdnum (buf + tot) (n - tot) p)
      else (pos tot, p)

  unfoldable pub readn : ℕ → ℕ → ℕ → Process → ℤ × Process
  unfolding read
  readn fdnum buf n = read_on n fdnum buf 0 n

abbrev pub set_offset : ℕ → ℕ → Process → Process
set_offset page offset p = record p {
  fds = update p.fds page (record (p.fds page) { fd_offset = offset });
}

unfoldable pub seek : ℕ → ℕ → Process → ℤ × Process
unfolding fd_lookup
seek fdnum offset p = elim (fd_lookup fdnum p) [
  | failed r ↦ (r, p)
  | found fd page ↦ (pos 0, set_offset page offset p)
]
