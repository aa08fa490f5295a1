-- ===== src/Dispatch/Order.antt =====
-- What each channel of pkg/protocol/client.go delivers.
use mathlib.Core.Path.{ap₂}
use mathlib.Core.List.{append-nil, append_assoc}
use sendspin_go.Prelude.{
  ◌≡◌, sym, ap, ◌∙◌, inl, inr, false, ◌||◌, List, [], ◌∷◌, ◌++◌, none, some, arith, Bool-cases,
  Option-cases, List-cases,
}
use sendspin_go.Dispatch.{
  MessageChannel, control_msgs, server_state, group_update, same, Item, Incoming, route, Reader,
  channel_has_room, enqueue, try_send, read_message, retry, expire, take_from, LoopStep, receives,
  retries, expires, takes, step, run,
}
use sendspin_go.Dispatch.Channels.{same-eq, waiting}
use sendspin_go.Dispatch.Routed.{only, only-append, routed}

-- The channels whose messages are never dropped.
abbrev pub Kept : MessageChannel → Type 0
Kept k = (same k control_msgs || (same k server_state || same k group_update)) ≡ false

abbrev pub InWireOrder : MessageChannel → Reader → Type 0
InWireOrder k r = r.taken k ++ (r.queues k ++ waiting k r.pending) ≡ only k r.seen

module _ (k : MessageChannel) (kept : Kept k) (r : Reader) where
  -- What the channel holds or waits for, after a send while nothing waits.
  try_send-lines :
      (c : MessageChannel) (i : Item)
      → r.pending ≡ none
      → (try_send r c i).queues k ++ waiting k (try_send r c i).pending
        ≡ r.queues k ++ waiting k (some (c, i))
  unfolding try_send enqueue
  try_send-lines c i free = elim (Bool-cases (same c k)) [
    | inr e ↦ elim (Bool-cases (channel_has_room r c)) [
      | inl room ↦ ground (arith, e, room, free)
      | inr full ↦ ground (arith, e, full, free)
    ]
    | inl e ↦
        let eq = same-eq c k e in
        let line = ap r.queues eq in
        let control : same c control_msgs ≡ false =
          ap (λ x. same x control_msgs) eq ∙ ground (arith, kept) in
        elim (Bool-cases (channel_has_room r c)) [
          | inl room ↦ ground (arith, e, room, free, line, append-nil (r.queues c ++ i ∷ []))
          | inr full ↦ ground (arith, e, full, free, line, control)
        ]
  ]

  try_send-kept :
      (c : MessageChannel) (i : Item)
      → ((try_send r c i).taken ≡ r.taken) × ((try_send r c i).seen ≡ r.seen)
  unfolding try_send enqueue
  try_send-kept c i = (ground arith, ground arith)

  retry-lines :
      (retry r).queues k ++ waiting k (retry r).pending ≡ r.queues k ++ waiting k r.pending
  unfolding retry enqueue
  retry-lines = elim (Option-cases r.pending) [
    | inl free ↦ ground (arith, free)
    | inr ((c, i), held) ↦ elim (Bool-cases (channel_has_room r c)) [
      | inr full ↦ ground (arith, held, full)
      | inl room ↦ elim (Bool-cases (same c k)) [
        | inr e ↦ ground (arith, held, room, e)
        | inl e ↦
            let line = ap r.queues (same-eq c k e) in
            ground (arith, held, room, e, line, append-nil (r.queues c ++ i ∷ []))
      ]
    ]
  ]

  retry-kept : ((retry r).taken ≡ r.taken) × ((retry r).seen ≡ r.seen)
  unfolding retry enqueue
  retry-kept = (ground arith, ground arith)

  expire-lines :
      ((expire r).queues k ++ waiting k (expire r).pending ≡ r.queues k ++ waiting k r.pending)
      × ((expire r).taken ≡ r.taken)
      × ((expire r).seen ≡ r.seen)
  unfolding expire
  expire-lines = (
    elim (Option-cases r.pending) [
      | inl free ↦ ground (arith, free)
      | inr ((c, i), held) ↦ elim (Bool-cases (same c k)) [
        | inr e ↦ ground (arith, held, e)
        | inl e ↦
            let eq = same-eq c k e in
            let stays : (same c server_state || same c group_update) ≡ false =
              ap (λ x. same x server_state || same x group_update) eq ∙ ground (arith, kept) in
            ground (arith, held, stays)
      ]
    ],
    ground arith,
    ground arith,
  )

  take_from-lines :
      (c : MessageChannel)
      → ((take_from r c).taken k ++ (take_from r c).queues k ≡ r.taken k ++ r.queues k)
        × ((take_from r c).pending ≡ r.pending)
        × ((take_from r c).seen ≡ r.seen)
  unfolding take_from
  take_from-lines c = (
    elim (List-cases (r.queues c)) [
      | inl empty ↦ ground (arith, empty)
      | inr (i, items, full) ↦ elim (Bool-cases (same c k)) [
        | inr e ↦ ground (arith, full, e)
        | inl e ↦
            let line = ap r.queues (same-eq c k e) in
            let log = ap r.taken (same-eq c k e) in
            ground (arith, full, e, line, log, append_assoc (r.taken c) (i ∷ []) items)
      ]
    ],
    ground arith,
    ground arith,
  )

try_send-InWireOrder :
    (k : MessageChannel)
    → Kept k
    → (r : Reader) (c : MessageChannel) (i : Item) → r.pending ≡ none
    → r.taken k ++ (r.queues k ++ waiting k (some (c, i))) ≡ only k r.seen
    → InWireOrder k (try_send r c i)
try_send-InWireOrder k kept r c i free h =
    ap₂ (λ t l. t k ++ l) (try_send-kept k kept r c i).0 (try_send-lines k kept r c i free)
    ∙ h
    ∙ ap (only k) (sym (try_send-kept k kept r c i).1)

read_message-InWireOrder :
    (k : MessageChannel)
    → Kept k
    → (r : Reader) (m : Incoming) → InWireOrder k r
    → InWireOrder k (read_message r m)
unfolding read_message
read_message-InWireOrder k kept r m h = elim (Option-cases r.pending) [
  | inr (p, held) ↦ ground (arith, h, held)
  | inl free ↦
      let r' = record r { seen = r.seen ++ m ∷ [] } in
      let before : r.taken k ++ r.queues k ≡ only k r.seen =
        ap (λ l. r.taken k ++ l) (sym (append-nil (r.queues k)))
        ∙ sym (ap (λ x. r.taken k ++ (r.queues k ++ waiting k x)) free)
        ∙ h in
      let after : r.taken k ++ (r.queues k ++ waiting k (route m)) ≡ only k r'.seen =
        sym (append_assoc (r.taken k) (r.queues k) (waiting k (route m)))
        ∙ ap₂ ◌++◌ before (sym (routed k m))
        ∙ sym (only-append k r.seen m) in
      elim (Option-cases (route m)) [
        | inl silent ↦
            let quiet : InWireOrder k r' =
              ap (λ x. r.taken k ++ (r.queues k ++ waiting k x)) (free ∙ sym silent) ∙ after in
            ground (arith, quiet, free, silent)
        | inr ((c, i), found) ↦
            let ready : InWireOrder k (try_send r' c i) =
              try_send-InWireOrder k kept r' c i free
                (ap (λ x. r.taken k ++ (r.queues k ++ waiting k x)) (sym found) ∙ after) in
            ground (arith, ready, free, found)
      ]
]

step-InWireOrder :
    (k : MessageChannel)
    → Kept k
    → (r : Reader) (s : LoopStep) → InWireOrder k r
    → InWireOrder k (step r s)
unfolding step
step-InWireOrder k kept r (receives m) h = read_message-InWireOrder k kept r m h
step-InWireOrder k kept r retries h =
    ap₂ (λ t l. t k ++ l) (retry-kept k kept r).0 (retry-lines k kept r)
    ∙ h
    ∙ ap (only k) (sym (retry-kept k kept r).1)
step-InWireOrder k kept r expires h =
    let (lines, taken_same, seen_same) = expire-lines k kept r in
    ap₂ (λ t l. t k ++ l) taken_same lines ∙ h ∙ ap (only k) (sym seen_same)
step-InWireOrder k kept r (takes c) h =
    let (lines, pending_same, seen_same) = take_from-lines k kept r c in
    let r' = take_from r c in
    sym (append_assoc (r'.taken k) (r'.queues k) (waiting k r'.pending))
    ∙ ap₂ (λ l x. l ++ waiting k x) lines pending_same
    ∙ append_assoc (r.taken k) (r.queues k) (waiting k r.pending)
    ∙ h
    ∙ ap (only k) (sym seen_same)

-- For every channel but control_msgs, server_state and group_update, whatever steps the read loop
-- and the channels' readers take: what was taken from the channel, what is in it and what waits for
-- room in it are together the channel's messages in the frames that the loop has read, none lost or
-- doubled, in their order on the wire, where they were at the start. A channel's messages are the
-- texts of its type whose payload parses, or the binary frames of its first bytes.
pub run-InWireOrder :
    (k : MessageChannel)
    → Kept k
    → (steps : List LoopStep) (r : Reader) → InWireOrder k r
    → InWireOrder k (run steps r)
unfolding run
run-InWireOrder k kept [] r h = h
run-InWireOrder k kept (s ∷ ss) r h =
    run-InWireOrder k kept ss (step r s) (step-InWireOrder k kept r s h)
