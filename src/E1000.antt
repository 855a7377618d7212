-- ===== src/E1000.antt =====
-- The driver of the network card, mit-6.828/lab/kern/e1000.c, and the card, which works on the same
-- descriptors at the same time.
pub mod Bytes
pub mod Transmit
pub mod Receive
pub mod Queues
mod Tests
use papers_annotation.Prelude.{
  ℕ, zero, suc, ◌+◌, ◌-◌, ◌*◌, ◌%◌, ◌^◌, Bool, true, false, not, ◌&&◌, ◌||◌, ltb, leb,
  if◌then◌else◌, List, [], ◌∷◌, ◌++◌, length, get_or, bit_and, bit_or, ◌≡◌, ◌≢◌, ◌≤◌, update,
}
use papers_annotation.Prelude.Int.{ℤ, pos, negsuc}
use papers_annotation.Mmu.{test_bit, e_tx_full, e_pkt_too_large, e_rx_empty}

abbrev pub eth_pkt_size : ℕ
eth_pkt_size = 1518

abbrev pub ntxdesc : ℕ
ntxdesc = 64

abbrev pub rx_buf_size : ℕ
rx_buf_size = 2048

abbrev pub nrxdesc : ℕ
nrxdesc = 128

-- The offsets of the registers that say where the card and the driver stand in the two rings.
abbrev pub tdh : ℕ
tdh = 0x3810

abbrev pub tdt : ℕ
tdt = 0x3818

abbrev pub rdh : ℕ
rdh = 0x2810

abbrev pub rdt : ℕ
rdt = 0x2818

pub record TxDesc : Type 0 where
  pub addr : ℕ
  pub length : ℕ
  pub cso : ℕ
  pub cmd : ℕ
  pub status : ℕ
  pub css : ℕ
  pub special : ℕ

pub record RxDesc : Type 0 where
  pub addr : ℕ
  pub length : ℕ
  pub chksum : ℕ
  pub status : ℕ
  pub err : ℕ
  pub special : ℕ

-- `reg` is the card's registers by their offset, `tx_buf` and `rx_buf` the bytes of each buffer.
pub record E1000 : Type 0 where
  pub reg : ℕ → ℕ
  pub tx_queue : ℕ → TxDesc
  pub tx_buf : ℕ → ℕ → ℕ
  pub rx_queue : ℕ → RxDesc
  pub rx_buf : ℕ → ℕ → ℕ

-- The physical addresses of the arrays.
pub record Addresses : Type 0 where
  pub tx_queue_pa : ℕ
  pub tx_buf_pa : ℕ → ℕ
  pub rx_queue_pa : ℕ
  pub rx_buf_pa : ℕ → ℕ

abbrev pub set_reg : ℕ → ℕ → E1000 → E1000
set_reg offset v c = record c { reg = update c.reg offset v }

-- `reg &= ~clear` and `reg |= set`
abbrev pub change_reg : ℕ → ℕ → ℕ → E1000 → E1000
change_reg offset clear set c =
    set_reg offset (bit_or (bit_and (c.reg offset) (2 ^ 32 - 1 - clear)) set) c

abbrev pub fresh_tx : ℕ → TxDesc
fresh_tx pa = record { addr = pa; length = 0; cso = 0; cmd = 0; status = 0; css = 0; special = 0 }

abbrev pub fresh_rx : ℕ → RxDesc
fresh_rx pa = record { addr = pa; length = 0; chksum = 0; status = 0; err = 0; special = 0 }

unfoldable pub e1000_tx_init : Addresses → E1000 → E1000
e1000_tx_init a c =
    let c0 = record c {
      tx_queue = λ i. if ltb i ntxdesc then fresh_tx (a.tx_buf_pa i) else c.tx_queue i;
    } in
    let c1 = set_reg 0x3800 a.tx_queue_pa c0 in
    let c2 = set_reg 0x3804 0 c1 in
    let c3 = set_reg 0x3808 (ntxdesc * 16) c2 in
    let c4 = set_reg tdh 0 c3 in
    let c5 = set_reg tdt 0 c4 in
    let c6 = change_reg 0x400 0x3FFFF0 0x4010A c5 in change_reg 0x410 0x3FFFFFFF 0x60100A c6

unfoldable pub e1000_rx_init : Addresses → E1000 → E1000
e1000_rx_init a c =
    let c0 = record c {
      rx_queue = λ i. if ltb i nrxdesc then fresh_rx (a.rx_buf_pa i) else c.rx_queue i;
    } in
    let c1 = set_reg 0x5400 0x12005452 c0 in
    let c2 = set_reg 0x5404 (bit_or 0x5634 0x80000000) c1 in
    let c3 = set_reg 0x2800 a.rx_queue_pa c2 in
    let c4 = set_reg 0x2804 0 c3 in
    let c5 = set_reg 0x2808 (nrxdesc * 16) c4 in
    let c6 = set_reg rdh 0 c5 in
    let c7 = set_reg rdt (nrxdesc - 1) c6 in change_reg 0x100 0x020303C0 0x04000002 c7

-- After the PCI function is enabled and its registers are mapped.
unfoldable pub e1000_attach : Addresses → E1000 → E1000
unfolding e1000_tx_init e1000_rx_init
e1000_attach a c = e1000_rx_init a (e1000_tx_init a c)

-- memmove from another object.
abbrev pub put_bytes : ℕ → (ℕ → ℕ) → (ℕ → ℕ) → ℕ → ℕ
put_bytes n src old i = if ltb i n then src i else old i

-- The driver gave the descriptor to the card, which has not reported it as done.
abbrev pub is_waiting : TxDesc → Bool
is_waiting d = test_bit (d.cmd) 3 && not (test_bit (d.status) 0)

abbrev pub filled : ℕ → TxDesc → TxDesc
filled size d = record d {
  status = bit_and (d.status) 0xFE;
  length = size % 2 ^ 16;
  cmd = bit_or (d.cmd) 9;
}

-- `buf` is the memory from the caller's buffer on.
abbrev pub enqueue : (ℕ → ℕ) → ℕ → E1000 → E1000
enqueue buf size c =
    let tail = c.reg tdt in
    record c {
      tx_queue = update c.tx_queue tail (filled size (c.tx_queue tail));
      tx_buf = update c.tx_buf tail (put_bytes size buf (c.tx_buf tail));
      reg = update c.reg tdt ((tail + 1) % ntxdesc);
    }

unfoldable pub e1000_transmit : (ℕ → ℕ) → ℕ → E1000 → ℤ × E1000
e1000_transmit buf size c =
    let tail = c.reg tdt in
    if ltb eth_pkt_size size
    then (e_pkt_too_large, c)
    else if is_waiting (c.tx_queue tail)
    then (e_tx_full, c)
    else (pos 0, enqueue buf size c)

-- `length > (int) size`
abbrev pub too_small : ℕ → ℕ → Bool
too_small size n = leb (2 ^ 31) size || ltb size n

-- The descriptor goes back to the card.
abbrev pub hand_back : ℕ → E1000 → E1000
hand_back next c =
    let d = c.rx_queue next in
    record c {
      rx_queue = update c.rx_queue next (record d { status = bit_and (d.status) 0xFE });
      reg = update c.reg rdt next;
    }

-- The result, the caller's memory and the card.
unfoldable pub e1000_receive : (ℕ → ℕ) → ℕ → E1000 → ℤ × (ℕ → ℕ) × E1000
e1000_receive buf size c =
    let next = (c.reg rdt + 1) % nrxdesc in
    let d = c.rx_queue next in
    if not (test_bit (d.status) 0)
    then (e_rx_empty, buf, c)
    else if too_small size d.length
    then (e_pkt_too_large, buf, c)
    else (pos d.length, put_bytes d.length (c.rx_buf next) buf, hand_back next c)

-- The first n bytes.
abbrev pub bytes : ℕ → (ℕ → ℕ) → List ℕ
bytes zero f = []
bytes (suc n) f = f 0 ∷ bytes n (λ i. f (suc i))

-- The card sends the frame of the descriptor at its head, and reports it with the status st.
unfoldable pub card_sends : ℕ → E1000 → E1000
card_sends st c =
    let head = c.reg tdh in
    record c {
      tx_queue = update c.tx_queue head (record (c.tx_queue head) { status = st });
      reg = update c.reg tdh ((head + 1) % ntxdesc);
    }

-- The card stores a frame from the network.
unfoldable pub card_stores : List ℕ → ℕ → E1000 → E1000
card_stores frame st c =
    let head = c.reg rdh in
    let n = papers_annotation.Prelude.length frame in
    record c {
      rx_queue = update c.rx_queue head (record (c.rx_queue head) { length = n; status = st });
      rx_buf = update c.rx_buf head (put_bytes n (λ i. get_or frame i 0) (c.rx_buf head));
      reg = update c.reg rdh ((head + 1) % nrxdesc);
    }

-- The frames that e1000_transmit took, that the card sent, that it stored, and that e1000_receive gave out.
pub record System : Type 0 where
  pub card : E1000
  pub accepted : List (List ℕ)
  pub sent : List (List ℕ)
  pub stored : List (List ℕ)
  pub received : List (List ℕ)

abbrev pub transmitted : List ℕ → ℤ × E1000 → System → System
transmitted frame (pos n, c) s = record s { card = c; accepted = s.accepted ++ (frame ∷ []) }
transmitted frame (negsuc n, c) s = record s { card = c }

abbrev pub given_out : ℤ × (ℕ → ℕ) × E1000 → System → System
given_out (pos n, buf, c) s = record s { card = c; received = s.received ++ (bytes n buf ∷ []) }
given_out (negsuc n, buf, c) s = record s { card = c }

-- The frame that the card sends next.
abbrev pub at_head : E1000 → List ℕ
at_head c = bytes (c.tx_queue (c.reg tdh)).length (c.tx_buf (c.reg tdh))

-- The card works while its head is not at the driver's tail, and reports a descriptor by setting the
-- bit DD of its status.
pub data Step (s : System) : System → Type 0 where
  transmit :
      (buf : ℕ → ℕ) (size : ℕ)
      → Step s (transmitted (bytes size buf) (e1000_transmit buf size s.card) s)
  receive : (buf : ℕ → ℕ) (size : ℕ) → Step s (given_out (e1000_receive buf size s.card) s)
  send :
      (st : ℕ)
      → test_bit st 0 ≡ true
      → s.card.reg tdh ≢ s.card.reg tdt
      → Step s (record s { card = card_sends st s.card; sent = s.sent ++ (at_head s.card ∷ []) })
  store :
      (frame : List ℕ) (st : ℕ)
      → test_bit st 0 ≡ true
      → papers_annotation.Prelude.length frame ≤ rx_buf_size
      → s.card.reg rdh ≢ s.card.reg rdt
      → Step s (record s { card = card_stores frame st s.card; stored = s.stored ++ (frame ∷ []) })

abbrev pub attached : Addresses → E1000 → System
attached a c = record {
  card = e1000_attach a c;
  accepted = [];
  sent = [];
  stored = [];
  received = [];
}

pub data Reach : System → Type 0 where
  start : (a : Addresses) (c : E1000) → Reach (attached a c)
  later : {s t : System} → Reach s → Step s t → Reach t
