-- ===== src/Mmu.antt =====
-- The constants and address macros of mit-6.828/lab/inc/mmu.h and inc/memlayout.h, the error codes
-- of inc/error.h, and the rounding macros of inc/types.h. Addresses are numbers below 2 ^ 32.
use papers_annotation.Prelude.{ℕ, ◌+◌, ◌-◌, ◌*◌, ◌/◌, ◌%◌, ◌^◌, Bool, ◌==◌, bit_or}
use papers_annotation.Prelude.Int.{ℤ, negsuc}

abbrev pub u32 : ℕ → ℕ
u32 n = n % 2 ^ 32

abbrev pub pgsize : ℕ
pgsize = 4096

abbrev pub npdentries : ℕ
npdentries = 1024

abbrev pub nptentries : ℕ
nptentries = 1024

-- PGNUM, PDX and PTX: a shift, and a mask of ten ones.
abbrev pub pgnum : ℕ → ℕ
pgnum la = la / 2 ^ 12

abbrev pub pdx : ℕ → ℕ
pdx la = la / 2 ^ 22 % 1024

abbrev pub ptx : ℕ → ℕ
ptx la = la / 2 ^ 12 % 1024

-- PGADDR
abbrev pub pgaddr : ℕ → ℕ → ℕ → ℕ
pgaddr d t o = bit_or (bit_or (u32 (d * 2 ^ 22)) (u32 (t * 2 ^ 12))) o

-- PTE_ADDR clears the twelve flag bits.
abbrev pub pte_addr : ℕ → ℕ
pte_addr pte = pte / 2 ^ 12 * 2 ^ 12

-- `x & (1 << k)` as a truth value.
abbrev pub test_bit : ℕ → ℕ → Bool
test_bit x k = x / 2 ^ k % 2 == 1

-- PTE_P, PTE_W, PTE_U, PTE_SHARE, and the bits that are set in ~(PTE_SYSCALL | PTE_SHARE).
abbrev pub pte_p : ℕ
pte_p = 0x001

abbrev pub pte_w : ℕ
pte_w = 0x002

abbrev pub pte_u : ℕ
pte_u = 0x004

abbrev pub pte_pwt : ℕ
pte_pwt = 0x008

abbrev pub pte_pcd : ℕ
pte_pcd = 0x010

abbrev pub pte_share : ℕ
pte_share = 0x400

abbrev pub pte_not_syscall : ℕ
pte_not_syscall = 0xFFFFF1F8

abbrev pub kernbase : ℕ
kernbase = 0xF0000000

abbrev pub iophysmem : ℕ
iophysmem = 0x0A0000

abbrev pub extphysmem : ℕ
extphysmem = 0x100000

abbrev pub mpentry_paddr : ℕ
mpentry_paddr = 0x7000

abbrev pub ptsize : ℕ
ptsize = 0x400000

abbrev pub mmiolim : ℕ
mmiolim = kernbase - ptsize

abbrev pub mmiobase : ℕ
mmiobase = mmiolim - ptsize

abbrev pub ulim : ℕ
ulim = mmiobase

abbrev pub uvpt : ℕ
uvpt = ulim - ptsize

abbrev pub upages : ℕ
upages = uvpt - ptsize

abbrev pub uenvs : ℕ
uenvs = upages - ptsize

abbrev pub utop : ℕ
utop = uenvs

abbrev pub ustacktop : ℕ
ustacktop = utop - 2 * pgsize

-- ROUNDDOWN and ROUNDUP, on 32-bit words.
abbrev pub rounddown : ℕ → ℕ → ℕ
rounddown a n = a - a % n

abbrev pub roundup : ℕ → ℕ → ℕ
roundup a n = rounddown (u32 (a + n - 1)) n

-- The error codes, as the functions return them: `-E_BAD_ENV` is -2.
abbrev pub e_bad_env : ℤ
e_bad_env = negsuc 1

abbrev pub e_inval : ℤ
e_inval = negsuc 2

abbrev pub e_no_mem : ℤ
e_no_mem = negsuc 3

abbrev pub e_no_free_env : ℤ
e_no_free_env = negsuc 4

abbrev pub e_fault : ℤ
e_fault = negsuc 5

abbrev pub e_ipc_not_recv : ℤ
e_ipc_not_recv = negsuc 6

abbrev pub e_no_disk : ℤ
e_no_disk = negsuc 8

abbrev pub e_max_open : ℤ
e_max_open = negsuc 9

abbrev pub e_not_found : ℤ
e_not_found = negsuc 10

abbrev pub e_bad_path : ℤ
e_bad_path = negsuc 11

abbrev pub e_not_supp : ℤ
e_not_supp = negsuc 14

-- What env_alloc puts into the segment registers and the flags: GD_UD | 3, GD_UT | 3, FL_IF.
abbrev pub user_data_selector : ℕ
user_data_selector = 0x23

abbrev pub user_text_selector : ℕ
user_text_selector = 0x1B

abbrev pub fl_if : ℕ
fl_if = 0x200

abbrev pub nenv : ℕ
nenv = 1024

-- ENVX masks the low ten bits of an environment's id.
abbrev pub envx : ℕ → ℕ
envx envid = envid % 1024

abbrev pub e_tx_full : ℤ
e_tx_full = negsuc 15

abbrev pub e_pkt_too_large : ℤ
e_pkt_too_large = negsuc 16

abbrev pub e_rx_empty : ℤ
e_rx_empty = negsuc 17
