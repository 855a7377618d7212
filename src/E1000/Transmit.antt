-- ===== src/E1000/Transmit.antt =====
-- The ring of frames to send in mit-6.828/lab/kern/e1000.c, as the driver and the card change it.
use papers_annotation.Prelude.{
  ℕ, ◌+◌, ◌%◌, ◌^◌, ◌≤◌, ◌<◌, ◌≡◌, ◌≢◌, ◌⊎◌, refl, sym, ap, ◌∙◌, arith, true, false, ltb, ◌==◌, inl,
  inr, List, [], ◌∷◌, ◌++◌, length, length-append, get_or, get_or-before, get_or-last, take,
  take-suc, take-before, dec_lt,
}
use papers_annotation.Prelude.Int.{pos}
use papers_annotation.Mmu.{test_bit, e_tx_full, e_pkt_too_large}
use papers_annotation.E1000.{
  eth_pkt_size, tdh, tdt, E1000, is_waiting, enqueue, e1000_transmit, bytes, card_sends, at_head,
}
use papers_annotation.E1000.Bytes.{bytes-put_bytes, filled-is_waiting, done-is_waiting}

-- Frame number k stands in slot k % 64 from when it is accepted until it is sent.
pub record TxInv (c : E1000) (accepted sent : List (List ℕ)) : Type 0 where
  pub order : length sent ≤ length accepted
  pub room : length accepted ≤ length sent + 64
  pub head : c.reg tdh ≡ length sent % 64
  pub tail : c.reg tdt ≡ length accepted % 64
  pub first : sent ≡ take (length sent) accepted
  pub waiting :
      (k : ℕ) → length sent ≤ k → k < length accepted → is_waiting (c.tx_queue (k % 64)) ≡ true
  pub content :
      (k : ℕ)
      → length sent ≤ k
      → k < length accepted
      → bytes (c.tx_queue (k % 64)).length (c.tx_buf (k % 64)) ≡ get_or accepted k []
  pub idle :
      (k : ℕ)
      → length accepted ≤ k
      → k < length sent + 64
      → is_waiting (c.tx_queue (k % 64)) ≡ false

-- The three ways in which e1000_transmit ends.
pub data Outcome (c : E1000) (buf : ℕ → ℕ) (size : ℕ) (accepted sent : List (List ℕ)) : Type 0 where
  too_large :
      eth_pkt_size < size
      → e1000_transmit buf size c ≡ (e_pkt_too_large, c)
      → Outcome c buf size accepted sent
  full :
      size ≤ eth_pkt_size
      → length accepted ≡ length sent + 64
      → e1000_transmit buf size c ≡ (e_tx_full, c)
      → Outcome c buf size accepted sent
  taken :
      size ≤ eth_pkt_size
      → length accepted < length sent + 64
      → e1000_transmit buf size c ≡ (pos 0, enqueue buf size c)
      → Outcome c buf size accepted sent

module _ (c : E1000) (accepted sent : List (List ℕ)) (inv : TxInv c accepted sent) where
  pub transmit-Outcome : (buf : ℕ → ℕ) (size : ℕ) → Outcome c buf size accepted sent
  unfolding e1000_transmit
  transmit-Outcome buf size = elim (dec_lt eth_pkt_size size) [
    | yes large ↦ let t : ltb eth_pkt_size size ≡ true = ground arith in too_large large (rw t refl)
    | no fits ↦
        let t : ltb eth_pkt_size size ≡ false = ground arith in
        elim (dec_lt (length accepted) (length sent + 64)) [
          | yes room ↦
              let free : is_waiting (c.tx_queue (c.reg tdt)) ≡ false =
                ap (λ i. is_waiting (c.tx_queue i)) inv.tail
                ∙ inv.idle (length accepted) (omega arith) room in
              taken (omega arith) room (simp (t, free))
          | no none_free ↦
              let same : length accepted % 64 ≡ length sent % 64 = omega (arith, inv.room) in
              let busy : is_waiting (c.tx_queue (c.reg tdt)) ≡ true =
                ap (λ i. is_waiting (c.tx_queue i)) (inv.tail ∙ same)
                ∙ inv.waiting (length sent) (omega arith) (omega arith) in
              full (omega arith) (omega (arith, inv.room)) (simp (t, busy))
        ]
  ]

  -- The driver's new frame goes into a slot that holds none.
  pub enqueue-TxInv :
      (buf : ℕ → ℕ) (size : ℕ)
      → size ≤ eth_pkt_size
      → length accepted < length sent + 64
      → TxInv (enqueue buf size c) (accepted ++ (bytes size buf ∷ [])) sent
  enqueue-TxInv buf size fits room =
      let more : length (accepted ++ (bytes size buf ∷ [])) ≡ length accepted + 1 =
        length-append accepted (bytes size buf ∷ []) in
      let short : size % 2 ^ 16 ≡ size = omega arith in
      let split : (k : ℕ)
          → length sent ≤ k
          → k < length (accepted ++ (bytes size buf ∷ []))
          → ((k < length accepted) × ((c.reg tdt == k % 64) ≡ false))
            ⊎ ((k ≡ length accepted) × ((c.reg tdt == k % 64) ≡ true)) =
        λ k low high. elim (dec_lt k (length accepted)) [
          | yes old ↦ inl (old, ground (arith, inv.tail))
          | no new ↦ inr (omega (arith, more), ground (arith, inv.tail, more))
        ] in
      record {
        order = omega (arith, more, inv.order);
        room = omega (arith, more);
        head = inv.head;
        tail = omega (arith, more, inv.tail);
        first = inv.first ∙ sym (take-before accepted (bytes size buf) (length sent) inv.order);
        waiting = λ k low high. elim (split k low high) [
          | inl (old, apart) ↦ rw apart (inv.waiting k low old)
          | inr (new, same) ↦ rw same (filled-is_waiting size (c.tx_queue (c.reg tdt)))
        ];
        content = λ k low high. elim (split k low high) [
          | inl (old, apart) ↦
              rw apart
                (inv.content k low old ∙ sym (get_or-before accepted (bytes size buf) k [] old))
          | inr (new, same) ↦
              rw (same, short)
                (bytes-put_bytes size buf (c.tx_buf (c.reg tdt))
                  ∙ sym (get_or-last accepted (bytes size buf) k [] new))
        ];
        idle = λ k low high.
            let apart : (c.reg tdt == k % 64) ≡ false = ground (arith, inv.tail, more) in
            rw apart (inv.idle k (omega (arith, more)) high);
      }

  -- The card's head is not the tail: a frame waits, and not in all slots.
  pub card-busy : c.reg tdh ≢ c.reg tdt → length sent < length accepted
  card-busy ne = ground (arith, inv.head, inv.tail, inv.order, ne)

  pub send-TxInv :
      (st : ℕ)
      → test_bit st 0 ≡ true
      → c.reg tdh ≢ c.reg tdt
      → TxInv (card_sends st c) accepted (sent ++ (at_head c ∷ []))
  unfolding card_sends
  send-TxInv st dd ne =
      let some_waits = card-busy ne in
      let more : length (sent ++ (at_head c ∷ [])) ≡ length sent + 1 =
        length-append sent (at_head c ∷ []) in
      let frame : at_head c ≡ get_or accepted (length sent) [] =
        ap (λ i. bytes (c.tx_queue i).length (c.tx_buf i)) inv.head
        ∙ inv.content (length sent) (omega arith) some_waits in
      let apart : (k : ℕ) → length sent < k → k < length sent + 64 → (c.reg tdh == k % 64) ≡ false =
        λ k low high. ground (arith, inv.head) in
      record {
        order = omega (arith, more);
        room = omega (arith, more, inv.room);
        head = omega (arith, more, inv.head);
        tail = inv.tail;
        first =
            ap (λ xs. xs ++ (at_head c ∷ [])) inv.first
            ∙ ap (λ (f : List ℕ). take (length sent) accepted ++ (f ∷ [])) frame
            ∙ sym (take-suc accepted (length sent) [] some_waits)
            ∙ ap (λ (n : ℕ). take n accepted) (sym more);
        waiting = λ k low high.
            rw (apart k (omega (arith, more)) (omega (arith, inv.room)))
              (inv.waiting k (omega (arith, more)) high);
        content = λ k low high.
            rw (apart k (omega (arith, more)) (omega (arith, inv.room)))
              (inv.content k (omega (arith, more)) high);
        idle = λ k low high. elim (dec_lt k (length sent + 64)) [
          | yes old ↦ rw (apart k (omega (arith, some_waits)) old) (inv.idle k low old)
          | no new ↦
              let same : (c.reg tdh == k % 64) ≡ true = ground (arith, inv.head, more) in
              rw same (done-is_waiting (c.tx_queue (c.reg tdh)) st dd)
        ];
      }
