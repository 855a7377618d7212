-- ===== src/E1000/Tests.antt =====
-- Runs of the driver of mit-6.828/lab/kern/e1000.c and the card.
use papers_annotation.Prelude.{
  ℕ, zero, suc, ◌+◌, ◌≤◌, ◌<◌, ◌≡◌, ◌≢◌, refl, arith, [], ◌∷◌, ◌++◌, length, take,
}
use papers_annotation.Mmu.{e_tx_full}
use papers_annotation.E1000.{
  tdh, tdt, rdh, rdt, E1000, Addresses, fresh_tx, fresh_rx, e1000_attach, e1000_tx_init,
  e1000_rx_init, e1000_transmit, e1000_receive, bytes, card_sends, card_stores, System, transmitted,
  given_out, transmit, receive, send, store, attached, Reach, start, later, at_head,
}
use papers_annotation.E1000.Transmit
use papers_annotation.E1000.Receive
use papers_annotation.E1000.Queues.{frames_sent_in_order, frames_received_in_order}

abbrev somewhere : Addresses
somewhere = record {
  tx_queue_pa = 0x200000;
  tx_buf_pa = λ i. 0x201000 + i;
  rx_queue_pa = 0x300000;
  rx_buf_pa = λ i. 0x301000 + i;
}

abbrev at_reset : E1000
at_reset = record {
  reg = λ i. 0;
  tx_queue = λ i. fresh_tx 0;
  tx_buf = λ i j. 0;
  rx_queue = λ i. fresh_rx 0;
  rx_buf = λ i j. 0;
}

abbrev user_buf : ℕ → ℕ
user_buf i = 7 + i

abbrev call : ℕ → System → System
call size s = transmitted (bytes size user_buf) (e1000_transmit user_buf size s.card) s

abbrev begun : System
begun = attached somewhere at_reset

-- Two frames are to be sent, and one comes in.
queued : System
queued = call 2 (call 3 begun)

queued-Reach : Reach queued
unfolding queued
queued-Reach = later (later (start somewhere at_reset) (transmit user_buf 3)) (transmit user_buf 2)

one_sent : System
one_sent = record queued {
  card = card_sends 1 queued.card;
  sent = queued.sent ++ (at_head queued.card ∷ []);
}

one_sent-Reach : Reach one_sent
unfolding one_sent queued e1000_transmit e1000_attach e1000_tx_init e1000_rx_init
one_sent-Reach = later queued-Reach (send 1 refl (omega arith))

one_sent_result : (one_sent.sent ≡ (7 ∷ 8 ∷ 9 ∷ []) ∷ []) × (length one_sent.accepted ≡ 2)
unfolding one_sent queued e1000_transmit e1000_attach e1000_tx_init e1000_rx_init
one_sent_result = (refl, refl)

frames_sent_in_order_example :
    (one_sent.sent ≡ take (length one_sent.sent) one_sent.accepted)
    × (length one_sent.sent ≤ length one_sent.accepted)
    × (length one_sent.accepted ≤ length one_sent.sent + 64)
    × ((buf : ℕ → ℕ) (size : ℕ)
        → Transmit.Outcome one_sent.card buf size one_sent.accepted one_sent.sent)
    × (length one_sent.sent < length one_sent.accepted
        → length one_sent.accepted < length one_sent.sent + 64
        → one_sent.card.reg tdh ≢ one_sent.card.reg tdt)
    × (length one_sent.accepted ≡ length one_sent.sent + 64
        → one_sent.card.reg tdh ≡ one_sent.card.reg tdt)
frames_sent_in_order_example = frames_sent_in_order one_sent-Reach

arrived : System
arrived = record begun {
  card = card_stores (5 ∷ 6 ∷ []) 3 begun.card;
  stored = begun.stored ++ ((5 ∷ 6 ∷ []) ∷ []);
}

arrived-Reach : Reach arrived
unfolding arrived e1000_attach e1000_tx_init e1000_rx_init
arrived-Reach =
    later (start somewhere at_reset) (store (5 ∷ 6 ∷ []) 3 refl (omega arith) (omega arith))

got_it : System
got_it = given_out (e1000_receive user_buf 100 arrived.card) arrived

got_it-Reach : Reach got_it
unfolding got_it
got_it-Reach = later arrived-Reach (receive user_buf 100)

got_it_result : got_it.received ≡ (5 ∷ 6 ∷ []) ∷ []
unfolding got_it arrived e1000_receive card_stores e1000_attach e1000_tx_init e1000_rx_init
got_it_result = refl

frames_received_in_order_example :
    (got_it.received ≡ take (length got_it.received) got_it.stored)
    × (length got_it.received ≤ length got_it.stored)
    × (length got_it.stored ≤ length got_it.received + 127)
    × ((buf : ℕ → ℕ) (size : ℕ)
        → Receive.Outcome got_it.card buf size got_it.stored got_it.received)
    × (length got_it.stored < length got_it.received + 127
        → got_it.card.reg rdh ≢ got_it.card.reg rdt)
    × (length got_it.stored ≡ length got_it.received + 127
        → got_it.card.reg rdh ≡ got_it.card.reg rdt)
frames_received_in_order_example = frames_received_in_order got_it-Reach

-- 64 frames before the card sends the first: its head is at the tail, so that it takes the ring for
-- empty, and the driver takes it for full.
abbrev many : ℕ → System → System
many zero s = s
many (suc n) s = many n (call 1 s)

stuck : System
stuck = many 64 begun

stuck_result :
    (stuck.card.reg tdh ≡ stuck.card.reg tdt)
    × ((e1000_transmit user_buf 1 stuck.card).0 ≡ e_tx_full)
unfolding stuck e1000_transmit e1000_attach e1000_tx_init e1000_rx_init
stuck_result = (refl, refl)
