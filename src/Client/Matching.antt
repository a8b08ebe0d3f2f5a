-- ===== src/Client/Matching.antt =====
-- internal/ipc/client/client.go: which call a response reaches.
use mole_port.Base.{
  ==_iff, Bool, Bool-cases, Option, [], ap, arith, false, if◌then◌else◌, inl, inr, length, ltb,
  negsuc, none, pos, refl, some, str_eq, subst, true, true-false, ℕ, ℤ, ◌++◌, ◌+◌, ◌==◌, ◌∙◌, ◌∷◌,
  ◌≡◌, ◌≤◌,
}
use mole_port.Server.Messages.{RpcResponse}
use mole_port.Client.Calls.{
  CallChannel, IpcClient, Line, abandon_call, begin_call, begin_close, connected_client,
  end_reading, event_channel_buffer_size, finish_close, fresh_channel, hand_over, pending_number,
  register_call, set_channel, skipped, take_line, take_notification, take_response, with_id,
  without_id,
}
use mole_port.Broker.Events.{Notification}
use mole_port.Client.Running.{
  ClientStep, Follows, abandons, at_once, calls, closes, finishes, later, reading_ends, reads,
}
use mole_port.Client.Running.{hands}

-- A response that arrives is that of its call, whose channel is open and empty, and nobody else will answer that call.
abbrev pub Arrives : IpcClient → Option (ℕ × RpcResponse) → Type 0
Arrives c none = Unit
Arrives c (some (n, resp)) =
    (resp.id ≡ some (pos n))
    × (c.channels n ≡ fresh_channel)
    × (c.pending n ≡ false)
    × (n ≤ c.next_id)

-- A channel holds nothing but the response to its own call.
abbrev pub HoldsOwn : ℕ → Option RpcResponse → Type 0
HoldsOwn n none = Unit
HoldsOwn n (some resp) = resp.id ≡ some (pos n)

unfoldable pub IsMatched : IpcClient → Type 0
IsMatched c =
    ((n : ℕ) → c.pending n ≡ true → (c.channels n ≡ fresh_channel) × (n ≤ c.next_id))
    × Arrives c c.arriving
    × ((n : ℕ) → HoldsOwn n (c.channels n).content)

numbers_apart : (f : ℕ → Bool) (n k : ℕ) → f n ≡ false → f k ≡ true → (n == k) ≡ false
numbers_apart f n k off on = elim (Bool-cases (n == k)) [
  | inl same ↦
      let e : n ≡ k = ground (arith, same) in
      elim (true-false (f k) on (subst (λ i. f i ≡ false) e off)) [ ]
  | inr differ ↦ differ
]

set_channel-other :
    (i n : ℕ) (ch : CallChannel) (channels : ℕ → CallChannel)
    → (i == n) ≡ false
    → set_channel i ch channels n ≡ channels n
set_channel-other i n ch channels e = rw (e) refl

set_channel-own :
    (i n : ℕ) (ch : CallChannel) (channels : ℕ → CallChannel)
    → HoldsOwn n ch.content
    → HoldsOwn n (channels n).content
    → HoldsOwn n (set_channel i ch channels n).content
set_channel-own i n ch channels new old =
    elim (i == n) as (λ b. HoldsOwn n (if b then ch else channels n).content) [
      | true ↦ new
      | false ↦ old
    ]

register_call-Arrives :
    (c : IpcClient) (o : Option (ℕ × RpcResponse)) → Arrives c o → Arrives (register_call c) o
unfolding register_call
register_call-Arrives c none a = tt
register_call-Arrives c (some (n, resp)) (own, fresh, alone, old) =
    let apart : ((c.next_id + 1) == n) ≡ false = ground arith in
    (
      own,
      set_channel-other (c.next_id + 1) n fresh_channel c.channels apart ∙ fresh,
      rw (apart) alone,
      omega arith,
    )

register_call-IsMatched : (c : IpcClient) → IsMatched c → IsMatched (register_call c)
unfolding register_call IsMatched
register_call-IsMatched c (waits, arrives, own) = (
  λ n p. elim (Bool-cases ((c.next_id + 1) == n)) [
    | inl same ↦ (rw (same) refl, ground arith)
    | inr differ ↦
        let (fresh, old) = waits n (ground (arith, p, differ)) in
        (set_channel-other (c.next_id + 1) n fresh_channel c.channels differ ∙ fresh, omega arith)
  ],
  register_call-Arrives c c.arriving arrives,
  λ n. set_channel-own (c.next_id + 1) n fresh_channel c.channels tt (own n),
)

begin_call-IsMatched : (c : IpcClient) → IsMatched c → IsMatched (begin_call c).1
unfolding begin_call
begin_call-IsMatched c m =
    elim c.connected
      as (λ b.
        let begun : Option ℕ × IpcClient =
          if b then (some (c.next_id + 1), register_call c) else (none, c) in
        IsMatched begun.1) [ true ↦ register_call-IsMatched c m | false ↦ m ]

abandon_call-Arrives :
    (id : ℕ) (c : IpcClient) (o : Option (ℕ × RpcResponse))
    → Arrives c o
    → Arrives (abandon_call id c) o
unfolding abandon_call
abandon_call-Arrives id c none a = tt
abandon_call-Arrives id c (some (n, resp)) (own, fresh, alone, old) =
    (own, fresh, ground (arith, alone), old)

abandon_call-IsMatched : (id : ℕ) (c : IpcClient) → IsMatched c → IsMatched (abandon_call id c)
unfolding abandon_call IsMatched
abandon_call-IsMatched id c (waits, arrives, own) =
    (λ n p. waits n (ground (arith, p)), abandon_call-Arrives id c c.arriving arrives, own)

pending_number-found :
    (pending : ℕ → Bool) (o : Option ℤ) (n : ℕ)
    → pending_number pending o ≡ some n
    → (o ≡ some (pos n)) × (pending n ≡ true)
pending_number-found pending none n e = ground arith
pending_number-found pending (some (pos k)) n e = elim (Bool-cases (pending k)) [
  | inl here ↦
      let same : k ≡ n = ground (arith, here, e) in
      (ap (λ i. some (pos i)) same, subst (λ i. pending i ≡ true) same here)
  | inr gone ↦ ground (arith, gone, e)
]
pending_number-found pending (some (negsuc k)) n e = ground arith

take_response-IsMatched :
    (resp : RpcResponse) (o : Option ℕ) (c : IpcClient)
    → pending_number c.pending resp.id ≡ o
    → IsMatched c
    → IsMatched (take_response resp o c)
unfolding take_response IsMatched
take_response-IsMatched resp none c e m = m
take_response-IsMatched resp (some n) c e (waits, arrives, own) =
    let (mine, here) = pending_number-found c.pending resp.id n e in
    let (fresh, old) = waits n here in
    (λ k p. waits k (ground (arith, p)), (mine, fresh, ground (arith, ==_iff n n), old), own)

take_notification-same :
    (n : Notification) (c : IpcClient) → IsMatched c → IsMatched (take_notification n c)
unfolding take_notification IsMatched
take_notification-same n c m =
    elim (str_eq n.method "credential.request")
      as (λ b. IsMatched (
        if b
        then record c { asked = c.asked ++ (n ∷ []) }
        else if ltb (length c.events) event_channel_buffer_size
        then record c { events = c.events ++ (n ∷ []) }
        else c)) [
          | true ↦ m
          | false ↦
              elim (ltb (length c.events) event_channel_buffer_size)
                as (λ b. IsMatched (if b then record c { events = c.events ++ (n ∷ []) } else c)) [
                  | true ↦ m
                  | false ↦ m
                ]
        ]

take_line-IsMatched : (l : Line) (c : IpcClient) → IsMatched c → IsMatched (take_line l c)
unfolding take_line
take_line-IsMatched skipped c m = m
take_line-IsMatched (with_id resp) c m =
    take_response-IsMatched resp (pending_number c.pending resp.id) c refl m
take_line-IsMatched (without_id n) c m = take_notification-same n c m

hand_over-IsMatched :
    (n : ℕ) (resp : RpcResponse) (c : IpcClient)
    → c.arriving ≡ some (n, resp)
    → IsMatched c
    → IsMatched (hand_over n resp c)
unfolding hand_over IsMatched
hand_over-IsMatched n resp c e (waits, arrives, own) =
    let (mine, fresh, alone, old) = subst (λ o. Arrives c o) e arrives in
    let given : CallChannel = record { content = some resp; closed = (c.channels n).closed } in
    (
      λ k p.
          let apart : (n == k) ≡ false = numbers_apart c.pending n k alone p in
          let (empty, low) = waits k p in
          (set_channel-other n k given c.channels apart ∙ empty, low),
      tt,
      λ k. elim (Bool-cases (n == k)) [
        | inl same ↦
            let e' : n ≡ k = ground (arith, same) in rw (same) (mine ∙ ap (λ i. some (pos i)) e')
        | inr differ ↦ rw (differ) (own k)
      ],
    )

finish_close-Arrives :
    (c : IpcClient) (o : Option (ℕ × RpcResponse)) → Arrives c o → Arrives (finish_close c) o
unfolding finish_close
finish_close-Arrives c none a = tt
finish_close-Arrives c (some (n, resp)) (own, fresh, alone, old) =
    (own, rw (alone) fresh, refl, old)

finish_close-IsMatched : (c : IpcClient) → IsMatched c → IsMatched (finish_close c)
unfolding finish_close IsMatched
finish_close-IsMatched c (waits, arrives, own) = (
  λ n p. ground arith,
  finish_close-Arrives c c.arriving arrives,
  λ n.
      elim (c.pending n)
        as (λ b.
          HoldsOwn n
            (if b then record (c.channels n) { closed = true } else c.channels n).content) [
              | true ↦ own n
              | false ↦ own n
            ],
)

begin_close-IsMatched : (c : IpcClient) → IsMatched c → IsMatched (begin_close c)
unfolding begin_close IsMatched
begin_close-IsMatched c m =
    elim c.connected
      as (λ b. IsMatched (if b then record c { connected = false; closing = true } else c)) [
        | true ↦ m
        | false ↦ m
      ]

step-IsMatched : (c d : IpcClient) → ClientStep c d → IsMatched c → IsMatched d
unfolding IsMatched end_reading
step-IsMatched c _ calls m = begin_call-IsMatched c m
step-IsMatched c _ (abandons id) m = abandon_call-IsMatched id c m
step-IsMatched c _ (reads l on free) m = take_line-IsMatched l c m
step-IsMatched c _ (hands n resp e) m = hand_over-IsMatched n resp c e m
step-IsMatched c _ (reading_ends free) m = m
step-IsMatched c _ closes m = begin_close-IsMatched c m
step-IsMatched c _ (finishes closing) m = finish_close-IsMatched c m

Follows-IsMatched : (c : IpcClient) → Follows connected_client c → IsMatched c
unfolding IsMatched connected_client
Follows-IsMatched _ at_once = ((λ n p. ground arith), tt, λ n. tt)
Follows-IsMatched c (later d _ before step) = step-IsMatched d c step (Follows-IsMatched d before)

-- After any steps of a client's callers, of the loop that reads and of Close, in any order, since it was connected:
-- the channel on which readLoop is about to send a response is open and empty, so that the send neither
-- panics nor waits, and it is the channel of the call with the response's number.
pub arriving_is_safe :
    (c : IpcClient) (n : ℕ) (resp : RpcResponse)
    → Follows connected_client c
    → c.arriving ≡ some (n, resp)
    → (c.channels n ≡ fresh_channel) × (resp.id ≡ some (pos n))
unfolding IsMatched
arriving_is_safe c n resp before e =
    let (waits, arrives, own) = Follows-IsMatched c before in
    let (mine, fresh, alone, old) = subst (λ o. Arrives c o) e arrives in (fresh, mine)

-- After any such steps, the response that a call finds in its channel carries the number of that call.
pub received_is_own :
    (c : IpcClient) (n : ℕ) (resp : RpcResponse)
    → Follows connected_client c
    → (c.channels n).content ≡ some resp
    → resp.id ≡ some (pos n)
unfolding IsMatched
received_is_own c n resp before e =
    let (waits, arrives, own) = Follows-IsMatched c before in subst (λ o. HoldsOwn n o) e (own n)
