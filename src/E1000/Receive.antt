-- ===== src/E1000/Receive.antt =====
-- The ring of received frames in mit-6.828/lab/kern/e1000.c, as the card and the driver change it.
use papers_annotation.Prelude.{
  ℕ, ◌+◌, ◌%◌, ◌≤◌, ◌<◌, ◌≡◌, ◌≢◌, ◌⊎◌, refl, sym, ap, ◌∙◌, arith, Bool, true, false, ltb, ◌==◌,
  inl, inr, List, [], ◌∷◌, ◌++◌, length, length-append, get_or, get_or-before, get_or-last, take,
  take-suc, take-before, Bool-cases, dec_lt,
}
use papers_annotation.Prelude.Int.{pos}
use papers_annotation.Mmu.{test_bit, e_rx_empty, e_pkt_too_large}
use papers_annotation.E1000.{
  rdh, rdt, E1000, RxDesc, put_bytes, too_small, hand_back, e1000_receive, bytes, card_stores,
}
use papers_annotation.E1000.Bytes.{bytes-put_bytes, bytes-get_or, length-bytes, test_bit-clear}

abbrev pub is_filled : RxDesc → Bool
is_filled d = test_bit (d.status) 0

-- Frame number k stands in slot k % 128 from when the card stores it until the driver gives it out. The
-- driver's tail is the slot of the frame that it gave out last.
pub record RxInv (c : E1000) (stored received : List (List ℕ)) : Type 0 where
  pub order : length received ≤ length stored
  pub room : length stored ≤ length received + 127
  pub head : c.reg rdh ≡ length stored % 128
  pub tail : c.reg rdt ≡ (length received + 127) % 128
  pub first : received ≡ take (length received) stored
  pub waiting :
      (k : ℕ) → length received ≤ k → k < length stored → is_filled (c.rx_queue (k % 128)) ≡ true
  pub content :
      (k : ℕ)
      → length received ≤ k
      → k < length stored
      → bytes (c.rx_queue (k % 128)).length (c.rx_buf (k % 128)) ≡ get_or stored k []
  pub idle :
      (k : ℕ)
      → length stored ≤ k
      → k < length received + 128
      → is_filled (c.rx_queue (k % 128)) ≡ false

-- The first frame that waits.
abbrev pub next_frame : List (List ℕ) → List (List ℕ) → List ℕ
next_frame stored received = get_or stored (length received) []

abbrev pub next_slot : List (List ℕ) → ℕ
next_slot received = length received % 128

-- The three ways in which e1000_receive ends.
pub data Outcome (c : E1000) (buf : ℕ → ℕ) (size : ℕ) (stored received : List (List ℕ))
    : Type 0 where
  empty :
      length stored ≡ length received
      → e1000_receive buf size c ≡ (e_rx_empty, buf, c)
      → Outcome c buf size stored received
  too_large :
      length received < length stored
      → too_small size (length (next_frame stored received)) ≡ true
      → e1000_receive buf size c ≡ (e_pkt_too_large, buf, c)
      → Outcome c buf size stored received
  given :
      length received < length stored
      → too_small size (length (next_frame stored received)) ≡ false
      → (buf' : ℕ → ℕ)
      → e1000_receive buf size c
        ≡ (pos (length (next_frame stored received)), buf', hand_back (next_slot received) c)
      → bytes (length (next_frame stored received)) buf' ≡ next_frame stored received
      → ((i : ℕ) → length (next_frame stored received) ≤ i → buf' i ≡ buf i)
      → Outcome c buf size stored received

module _ (c : E1000) (stored received : List (List ℕ)) (inv : RxInv c stored received) where
  next_here : (c.reg rdt + 1) % 128 ≡ length received % 128
  next_here = omega (arith, inv.tail)

  length_here :
      length received < length stored
      → (c.rx_queue (next_slot received)).length ≡ length (next_frame stored received)
  length_here some_waits =
      let i = next_slot received in
      sym (length-bytes (c.rx_queue i).length (c.rx_buf i))
      ∙ ap length (inv.content (length received) (omega arith) some_waits)

  pub receive-Outcome : (buf : ℕ → ℕ) (size : ℕ) → Outcome c buf size stored received
  unfolding e1000_receive
  receive-Outcome buf size = elim (dec_lt (length received) (length stored)) [
    | no none_waits ↦
        let clear : is_filled (c.rx_queue (next_slot received)) ≡ false =
          inv.idle (length received) (omega arith) (omega arith) in
        empty (omega (arith, inv.order)) (simp (next_here, clear))
    | yes some_waits ↦
        let i = next_slot received in
        let n = length (next_frame stored received) in
        let filled : is_filled (c.rx_queue i) ≡ true =
          inv.waiting (length received) (omega arith) some_waits in
        let size_here = length_here some_waits in
        elim (Bool-cases (too_small size n)) [
          | inl t ↦ too_large some_waits t (simp (next_here, filled, size_here, t))
          | inr t ↦
              given some_waits t (put_bytes n (c.rx_buf i) buf)
                (simp (next_here, filled, size_here, t))
                (bytes-put_bytes n (c.rx_buf i) buf
                  ∙ ap (λ (n : ℕ). bytes n (c.rx_buf i)) (sym size_here)
                  ∙ inv.content (length received) (omega arith) some_waits)
                (λ j out. let past : ltb j n ≡ false = ground arith in rw past refl)
        ]
  ]

  pub hand_back-RxInv :
      length received < length stored
      → RxInv
          (hand_back (next_slot received) c)
          stored
          (received ++ (next_frame stored received ∷ []))
  hand_back-RxInv some_waits =
      let frame = next_frame stored received in
      let more : length (received ++ (frame ∷ [])) ≡ length received + 1 =
        length-append received (frame ∷ []) in
      let apart : (k : ℕ)
          → length received < k
          → k < length received + 128
          → (next_slot received == k % 128) ≡ false =
        λ k low high. ground arith in
      record {
        order = omega (arith, more);
        room = omega (arith, more, inv.room);
        head = inv.head;
        tail = omega (arith, more);
        first =
            ap (λ xs. xs ++ (frame ∷ [])) inv.first
            ∙ sym (take-suc stored (length received) [] some_waits)
            ∙ ap (λ (n : ℕ). take n stored) (sym more);
        waiting = λ k low high.
            rw (apart k (omega (arith, more)) (omega (arith, inv.room)))
              (inv.waiting k (omega (arith, more)) high);
        content = λ k low high.
            rw (apart k (omega (arith, more)) (omega (arith, inv.room)))
              (inv.content k (omega (arith, more)) high);
        idle = λ k low high. elim (dec_lt k (length received + 128)) [
          | yes old ↦ rw (apart k (omega (arith, some_waits)) old) (inv.idle k low old)
          | no new ↦
              let same : (next_slot received == k % 128) ≡ true = ground (arith, more) in
              rw same (test_bit-clear (c.rx_queue (next_slot received)).status)
        ];
      }

  -- The card's head is not the tail: not all slots but one hold a frame.
  pub card-room : c.reg rdh ≢ c.reg rdt → length stored < length received + 127
  card-room ne = ground (arith, inv.head, inv.tail, inv.room, ne)

  pub store-RxInv :
      (frame : List ℕ) (st : ℕ)
      → test_bit st 0 ≡ true
      → c.reg rdh ≢ c.reg rdt
      → RxInv (card_stores frame st c) (stored ++ (frame ∷ [])) received
  unfolding card_stores
  store-RxInv frame st dd ne =
      let free = card-room ne in
      let more : length (stored ++ (frame ∷ [])) ≡ length stored + 1 =
        length-append stored (frame ∷ []) in
      let split : (k : ℕ)
          → length received ≤ k
          → k < length (stored ++ (frame ∷ []))
          → ((k < length stored) × ((c.reg rdh == k % 128) ≡ false))
            ⊎ ((k ≡ length stored) × ((c.reg rdh == k % 128) ≡ true)) =
        λ k low high. elim (dec_lt k (length stored)) [
          | yes old ↦ inl (old, ground (arith, inv.head, free))
          | no new ↦ inr (omega (arith, more), ground (arith, inv.head, more))
        ] in
      record {
        order = omega (arith, more, inv.order);
        room = omega (arith, more);
        head = omega (arith, more, inv.head);
        tail = inv.tail;
        first = inv.first ∙ sym (take-before stored frame (length received) inv.order);
        waiting = λ k low high. elim (split k low high) [
          | inl (old, apart) ↦ rw apart (inv.waiting k low old)
          | inr (new, same) ↦ rw same dd
        ];
        content = λ k low high. elim (split k low high) [
          | inl (old, apart) ↦
              rw apart (inv.content k low old ∙ sym (get_or-before stored frame k [] old))
          | inr (new, same) ↦ rw same (
              bytes-put_bytes (length frame) (λ i. get_or frame i 0) (c.rx_buf (c.reg rdh))
              ∙ bytes-get_or frame
              ∙ sym (get_or-last stored frame k [] new))
        ];
        idle = λ k low high.
            let apart : (c.reg rdh == k % 128) ≡ false = ground (arith, inv.head, more) in
            rw apart (inv.idle k (omega (arith, more)) high);
      }
