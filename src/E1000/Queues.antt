-- ===== src/E1000/Queues.antt =====
-- What the driver of mit-6.828/lab/kern/e1000.c and the card make of the two rings together.
use mathlib.Core.Path.{ap₂}
use papers_annotation.Prelude.{
  ℕ, ◌+◌, ◌%◌, ◌≤◌, ◌<◌, ◌≡◌, ◌≢◌, refl, ap, ◌∙◌, arith, List, length, take,
}
use papers_annotation.E1000.{
  tdh, tdt, rdh, rdt, E1000, Addresses, enqueue, e1000_transmit, e1000_receive, card_sends,
  card_stores, bytes, e1000_attach, e1000_tx_init, e1000_rx_init, System, transmitted, given_out,
  Step, transmit, receive, send, store, attached, Reach, start, later, is_waiting,
}
use papers_annotation.E1000.Transmit
use papers_annotation.E1000.Transmit.{TxInv, transmit-Outcome, enqueue-TxInv, send-TxInv, card-busy}
use papers_annotation.E1000.Receive
use papers_annotation.E1000.Receive.{
  RxInv, receive-Outcome, hand_back-RxInv, store-RxInv, card-room, is_filled, next_frame,
}

record Inv (s : System) : Type 0 where
  tx : TxInv s.card s.accepted s.sent
  rx : RxInv s.card s.stored s.received

TxInv-same :
    (c c' : E1000) (accepted sent : List (List ℕ))
    → c'.reg tdh ≡ c.reg tdh
    → c'.reg tdt ≡ c.reg tdt
    → c'.tx_queue ≡ c.tx_queue
    → c'.tx_buf ≡ c.tx_buf
    → TxInv c accepted sent
    → TxInv c' accepted sent
TxInv-same c c' accepted sent h t q b inv = record {
  order = inv.order;
  room = inv.room;
  head = h ∙ inv.head;
  tail = t ∙ inv.tail;
  first = inv.first;
  waiting = λ k low high. ap (λ q. is_waiting (q (k % 64))) q ∙ inv.waiting k low high;
  content = λ k low high.
      ap₂ (λ q b. bytes (q (k % 64)).length (b (k % 64))) q b ∙ inv.content k low high;
  idle = λ k low high. ap (λ q. is_waiting (q (k % 64))) q ∙ inv.idle k low high;
}

RxInv-same :
    (c c' : E1000) (stored received : List (List ℕ))
    → c'.reg rdh ≡ c.reg rdh
    → c'.reg rdt ≡ c.reg rdt
    → c'.rx_queue ≡ c.rx_queue
    → c'.rx_buf ≡ c.rx_buf
    → RxInv c stored received
    → RxInv c' stored received
RxInv-same c c' stored received h t q b inv = record {
  order = inv.order;
  room = inv.room;
  head = h ∙ inv.head;
  tail = t ∙ inv.tail;
  first = inv.first;
  waiting = λ k low high. ap (λ q. is_filled (q (k % 128))) q ∙ inv.waiting k low high;
  content = λ k low high.
      ap₂ (λ q b. bytes (q (k % 128)).length (b (k % 128))) q b ∙ inv.content k low high;
  idle = λ k low high. ap (λ q. is_filled (q (k % 128))) q ∙ inv.idle k low high;
}

attached-Inv : (a : Addresses) (c : E1000) → Inv (attached a c)
unfolding e1000_attach e1000_tx_init e1000_rx_init
attached-Inv a c = record {
  tx = record {
    order = omega arith;
    room = omega arith;
    head = refl;
    tail = refl;
    first = refl;
    waiting = λ k low high. absurd (omega arith);
    content = λ k low high. absurd (omega arith);
    idle = λ k low high. ground arith;
  };
  rx = record {
    order = omega arith;
    room = omega arith;
    head = refl;
    tail = refl;
    first = refl;
    waiting = λ k low high. absurd (omega arith);
    content = λ k low high. absurd (omega arith);
    idle = λ k low high. ground arith;
  };
}

module _ (s : System) (inv : Inv s) where
  enqueue-Inv :
      (buf : ℕ → ℕ) (size : ℕ)
      → Transmit.Outcome s.card buf size s.accepted s.sent
      → Inv (transmitted (bytes size buf) (e1000_transmit buf size s.card) s)
  enqueue-Inv buf size (Transmit.too_large large e) = rw e (record { tx = inv.tx; rx = inv.rx })
  enqueue-Inv buf size (Transmit.full fits full e) = rw e (record { tx = inv.tx; rx = inv.rx })
  enqueue-Inv buf size (Transmit.taken fits room e) = rw e (record {
    tx = enqueue-TxInv s.card s.accepted s.sent inv.tx buf size fits room;
    rx = RxInv-same s.card (enqueue buf size s.card) s.stored s.received refl refl refl refl inv.rx;
  })

  hand_back-Inv :
      (buf : ℕ → ℕ) (size : ℕ)
      → Receive.Outcome s.card buf size s.stored s.received
      → Inv (given_out (e1000_receive buf size s.card) s)
  hand_back-Inv buf size (Receive.empty none_waits e) = rw e (record { tx = inv.tx; rx = inv.rx })
  hand_back-Inv buf size (Receive.too_large some_waits t e) =
      rw e (record { tx = inv.tx; rx = inv.rx })
  hand_back-Inv buf size (Receive.given some_waits t buf' e frame rest) =
      rw (e, frame)
        (record {
          tx = TxInv-same s.card _ s.accepted s.sent refl refl refl refl inv.tx;
          rx = hand_back-RxInv s.card s.stored s.received inv.rx some_waits;
        })

  step-Inv : {t : System} → Step s t → Inv t
  unfolding card_sends card_stores
  step-Inv (transmit buf size) =
      enqueue-Inv buf size (transmit-Outcome s.card s.accepted s.sent inv.tx buf size)
  step-Inv (receive buf size) =
      hand_back-Inv buf size (receive-Outcome s.card s.stored s.received inv.rx buf size)
  step-Inv (send st dd ne) = record {
    tx = send-TxInv s.card s.accepted s.sent inv.tx st dd ne;
    rx = RxInv-same s.card (card_sends st s.card) s.stored s.received refl refl refl refl inv.rx;
  }
  step-Inv (store frame st dd short ne) = record {
    tx =
        TxInv-same s.card (card_stores frame st s.card) s.accepted s.sent refl refl refl refl
          inv.tx;
    rx = store-RxInv s.card s.stored s.received inv.rx frame st dd ne;
  }

reach-Inv : {s : System} → Reach s → Inv s
reach-Inv (start a c) = attached-Inv a c
reach-Inv (later {s} r st) = step-Inv s (reach-Inv r) st

-- The driver and the card after any number of their steps in any order. The frames that the card sent are
-- the first that e1000_transmit accepted, in order, and at most 64 wait. A further call refuses a frame of
-- more than 1518 bytes; it returns -E_TX_FULL and changes nothing if 64 wait, and else takes the frame.
-- The card has work if frames wait, but not if 64 do: then its head is at the tail, as if none waited.
pub frames_sent_in_order :
    {s : System}
    → Reach s
    → (s.sent ≡ take (length s.sent) s.accepted)
      × (length s.sent ≤ length s.accepted)
      × (length s.accepted ≤ length s.sent + 64)
      × ((buf : ℕ → ℕ) (size : ℕ) → Transmit.Outcome s.card buf size s.accepted s.sent)
      × (length s.sent < length s.accepted
          → length s.accepted < length s.sent + 64
          → s.card.reg tdh ≢ s.card.reg tdt)
      × (length s.accepted ≡ length s.sent + 64 → s.card.reg tdh ≡ s.card.reg tdt)
frames_sent_in_order {s} r =
    let inv = (reach-Inv r).tx in
    (
      inv.first,
      inv.order,
      inv.room,
      transmit-Outcome s.card s.accepted s.sent inv,
      λ some_wait free. omega (arith, inv.head, inv.tail),
      λ full. omega (arith, inv.head, inv.tail),
    )

-- The driver and the card after any number of their steps in any order. The frames that e1000_receive gave
-- out are the first that the card stored, in order, and at most 127 wait. A further call returns
-- -E_RX_EMPTY if none waits; -E_PKT_TOO_LARGE, with no change, if the next is longer than the buffer; and
-- else puts that frame into the buffer, changes no byte after it and returns its length. The card has room
-- for a frame just as long as fewer than 127 wait.
pub frames_received_in_order :
    {s : System}
    → Reach s
    → (s.received ≡ take (length s.received) s.stored)
      × (length s.received ≤ length s.stored)
      × (length s.stored ≤ length s.received + 127)
      × ((buf : ℕ → ℕ) (size : ℕ) → Receive.Outcome s.card buf size s.stored s.received)
      × (length s.stored < length s.received + 127 → s.card.reg rdh ≢ s.card.reg rdt)
      × (length s.stored ≡ length s.received + 127 → s.card.reg rdh ≡ s.card.reg rdt)
frames_received_in_order {s} r =
    let inv = (reach-Inv r).rx in
    (
      inv.first,
      inv.order,
      inv.room,
      receive-Outcome s.card s.stored s.received inv,
      λ free. omega (arith, inv.head, inv.tail, inv.order),
      λ full. omega (arith, inv.head, inv.tail),
    )
