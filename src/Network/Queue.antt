-- ===== src/Network/Queue.antt =====
-- The queues of kernel/src/net/stack.c. A vector is the list of what its elements point to.
use nocturne_os_base.Prelude.{
  ℕ, zero, suc, ◌≡◌, refl, sym, ap, ap₂, ◌∙◌, Option, none, some, List, [], ◌∷◌, ◌++◌, length,
  length-append, arith,
}
use mathlib.Core.List.{reverse, reverse-append, reverse-reverse}
use nocturne_os_base.Arp.{ArpTable}
use nocturne_os_base.Network.{Handed, ethernet_handle_packet}

-- `netqueue_item_t`; `card` is the number of the card, and the list of the bytes has its length.
pub record NetqueueItem : Type 0 where
  pub card : ℕ
  pub bytes : List ℕ

-- Onto the outgoing queue, and onto the incoming one: `vector_push_back` of a copy of the packet.
unfoldable pub netstack_push : List NetqueueItem → ℕ → List ℕ → List NetqueueItem
netstack_push queue card packet_data = queue ++ (record { card = card; bytes = packet_data } ∷ [])

unfoldable pub netstack_transfer : List NetqueueItem → ℕ → List ℕ → List NetqueueItem
netstack_transfer queue card packet_data =
    queue ++ (record { card = card; bytes = packet_data } ∷ [])

-- `vector_pop_back` of an item, and what is left.
unfoldable pub pop_back : List NetqueueItem → Option (NetqueueItem × List NetqueueItem)
pop_back [] = none
pop_back (item ∷ items) = elim (pop_back items) [
  | none ↦ some (item, [])
  | some (last, left) ↦ some (last, item ∷ left)
]

unfoldable pub netstack_pop : List NetqueueItem → Option (NetqueueItem × List NetqueueItem)
unfolding pop_back
netstack_pop queue = pop_back queue

-- The loop of `netstack_processor_out` with `i` items left to send: what the cards get, in order, and the queue.
pub send_rounds : ℕ → List NetqueueItem → List NetqueueItem × List NetqueueItem
send_rounds zero queue = ([], queue)
send_rounds (suc i) queue = elim (pop_back queue) [
  | none ↦ ([], queue)
  | some (item, left) ↦ (item ∷ (send_rounds i left).0, (send_rounds i left).1)
]

unfoldable pub send_pass : List NetqueueItem → List NetqueueItem × List NetqueueItem
unfolding send_rounds
send_pass queue = send_rounds (length queue) queue

-- A round of `netstack_processor`, once the incoming queue is not empty.
unfoldable pub receive_round :
    List NetqueueItem → ArpTable → Option (ℕ × Handed × ArpTable × List NetqueueItem)
unfolding netstack_pop ethernet_handle_packet
receive_round queue table = elim (netstack_pop queue) [
  | none ↦ none
  | some (item, left) ↦
      let (handed, table') = ethernet_handle_packet item.bytes table in
      some (item.card, handed, table', left)
]

pop_back-append :
    (items : List NetqueueItem) (item : NetqueueItem)
    → pop_back (items ++ (item ∷ [])) ≡ some (item, items)
unfolding pop_back
pop_back-append [] item = refl
pop_back-append (x ∷ items) item = rw (pop_back-append items item) refl

send_step :
    (i : ℕ) (queue : List NetqueueItem) (item : NetqueueItem) (left : List NetqueueItem)
    → pop_back queue ≡ some (item, left)
    → send_rounds (suc i) queue ≡ (item ∷ (send_rounds i left).0, (send_rounds i left).1)
unfolding send_rounds
send_step i queue item left e = rw (e, send_rounds) refl

-- The rounds for the items of a reversed list.
send_rounds-reverse :
    (items : List NetqueueItem) → send_rounds (length items) (reverse items) ≡ (items, [])
unfolding send_rounds
send_rounds-reverse [] = refl
send_rounds-reverse (item ∷ items) =
    let e : reverse (item ∷ items) ≡ reverse items ++ (item ∷ []) =
      reverse-append (item ∷ []) items in
    let p : pop_back (reverse (item ∷ items)) ≡ some (item, reverse items) =
      ap pop_back e ∙ pop_back-append (reverse items) item in
    send_step (length items) (reverse (item ∷ items)) item (reverse items) p
    ∙ ap (λ (r : List NetqueueItem × List NetqueueItem). (item ∷ r.0, r.1))
        (send_rounds-reverse items)

length-reverse : (items : List NetqueueItem) → length (reverse items) ≡ length items
length-reverse [] = refl
length-reverse (item ∷ items) =
    ap length (reverse-append (item ∷ []) items)
    ∙ omega (arith, length-append (reverse items) (item ∷ []), length-reverse items)

-- A pass of `netstack_processor_out` sends every item of the queue once, the newest first, and leaves the queue empty.
pub send_pass-Reverses : (queue : List NetqueueItem) → send_pass queue ≡ (reverse queue, [])
unfolding send_pass
send_pass-Reverses queue =
    let e : queue ≡ reverse (reverse queue) = sym (reverse-reverse queue) in
    ap₂ send_rounds (sym (length-reverse queue)) e ∙ send_rounds-reverse (reverse queue)
