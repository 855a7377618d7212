-- ===== src/Fs/State.antt =====
-- The state of the file system server (mit-6.828/lab/fs): the disk as mapped into its memory, with
-- the layout of `struct Super` and `struct File` of mit-6.828/lab/inc/fs.h, and the monad of the
-- server's functions.
use papers_annotation.Prelude.{ℕ, ◌+◌, ◌/◌, ◌%◌, ◌^◌, Bool, ◌==◌, if◌then◌else◌, ◌≡◌, ap}

-- `words` are the 32-bit words from DISKMAP on: block b begins at word 1024 * b, and a pointer into the
-- map is the number of its word. Reading a block from the disk on its first use is not seen here.
pub record Disk : Type 0 where
  pub super_set : Bool
  pub words : ℕ → ℕ

-- A call returns, or the server panics.
pub data Result (A : Type 0) : Type 0 where
  done : A → Disk → Result A
  died : Result A

abbrev pub M : Type 0 → Type 0
M A = Disk → Result A

abbrev pub pure : {A : Type 0} → A → M A
pure a d = done a d

abbrev pub panic : {A : Type 0} → M A
panic d = died

abbrev pub bind : {A B : Type 0} → Result A → (A → M B) → Result B
bind (done a d) f = f a d
bind died f = died

infixl 5 ◌>>=◌ ◌>>◌
abbrev pub ◌>>=◌ : {A B : Type 0} → M A → (A → M B) → M B
◌>>=◌ m f d = bind (m d) f

abbrev pub ◌>>◌ : {B : Type 0} → M (Unit {0}) → M B → M B
m >> n = m >>= λ _. n

pub bind-done :
    {A B : Type 0} (m : M A) (f : A → M B) (a : A) (d d' : Disk)
    → m d ≡ done a d'
    → (m >>= f) d ≡ f a d'
bind-done m f a d d' h = ap (λ o. bind o f) h

-- A word of the map read, and written.
abbrev pub word : ℕ → M ℕ
word a d = done (d.words a) d

abbrev pub set_word : ℕ → ℕ → Disk → Disk
set_word a v d = record d { words = λ x. if x == a then v else d.words x }

abbrev pub write : ℕ → ℕ → M (Unit {0})
write a v d = done tt (set_word a v d)

-- The super block is block 1, and the bitmap begins with block 2.
abbrev pub s_magic : Disk → ℕ
s_magic d = d.words 1024

abbrev pub s_nblocks : Disk → ℕ
s_nblocks d = d.words 1025

abbrev pub s_root : ℕ
s_root = 1026

abbrev pub bitmap : ℕ
bitmap = 2048

-- The fields of a `struct File` at word f: 128 bytes of name, then a word each.
abbrev pub f_size : ℕ → ℕ
f_size f = f + 32

abbrev pub f_type : ℕ → ℕ
f_type f = f + 33

abbrev pub f_direct : ℕ → ℕ → ℕ
f_direct f i = f + 34 + i

abbrev pub f_indirect : ℕ → ℕ
f_indirect f = f + 44

-- Byte i of the words from `a` on.
abbrev pub byte_at : Disk → ℕ → ℕ → ℕ
byte_at d a i = d.words (a + i / 4) / 256 ^ (i % 4) % 256
