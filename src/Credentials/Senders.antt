-- ===== src/Credentials/Senders.antt =====
-- internal/ipc/server.go and internal/ipc/handler/handler_ssh.go: who can answer a credential request.
use mole_port.Base.{
  Map, Option, String, ap, arith, delete-some, false, if◌then◌else◌, inl, inr, none, none-some, put,
  put-some, some, some_injective, str_eq, sym, true, ◌+◌, ◌∙◌, ◌≡◌, ◌≢◌, ◌⊎◌,
}
use mole_port.Protocol.Codes.{invalid_params}
use mole_port.Credentials.Pending.{
  Channel, CredTable, CredentialResponseParams, credential_response, deliver, forget, register,
}
use mole_port.Credentials.Waiting.{
  Place, Reached, Step, World, asking, asks, begins, busy, connects, ends, fails_to_ask, goes,
  returns, scanning, takes, times_out,
}
use mole_port.Credentials.Pending.{request_id}
use mole_port.Credentials.Waiting.{responds}
use mole_port.Credentials.Waiting.{receives}

-- A response that waits for a client does not come from that client.
unfoldable pub FromOthers : World → Type 0
FromOthers w =
    (c id from : String) (p : CredentialResponseParams)
    → w.loops c ≡ some (asking id)
    → w.table.cred_pending id ≡ some (some (from, p))
    → from ≢ c

asked : String → Place → String
asked d scanning = d
asked d busy = d
asked d (asking id) = id

pub asking_injective : (i j : String) → asking i ≡ asking j → i ≡ j
unfolding asked
asking_injective i j e = ap (asked i) e

pub scanning_asking : (id : String) → scanning ≢ asking id
scanning_asking id e = ground arith

pub busy_asking : (id : String) → busy ≢ asking id
busy_asking id e = ground arith

-- A loop that waits after a change elsewhere, or one to a place that does not wait, has waited before.
put-asking :
    (m : Map Place) (d c id : String) (q : Place)
    → ((j : String) → q ≢ asking j)
    → put m d q c ≡ some (asking id)
    → m c ≡ some (asking id)
put-asking m d c id q free at = elim (put-some m d c q (asking id) at) [
  | inl (same, e) ↦ elim (free id e) [ ]
  | inr (differ, e) ↦ e
]

deliver-sender :
    (d : String) (r : CredentialResponseParams) (o : Option Channel) (t : CredTable)
    (id from : String) (p : CredentialResponseParams)
    → (deliver d r o t).1.cred_pending id ≡ some (some (from, p))
    → (d ≡ from) ⊎ (t.cred_pending id ≡ some (some (from, p)))
unfolding deliver
deliver-sender d r none t id from p got = inr got
deliver-sender d r (some (some q)) t id from p got = inr got
deliver-sender d r (some none) t id from p got =
    elim (put-some t.cred_pending r.request_id id (some (d, r)) (some (from, p)) got) [
      | inl (same, e) ↦
          inl (
            ap (λ (x : String × CredentialResponseParams). x.0) (some_injective (d, r) (from, p) e))
      | inr (differ, e) ↦ inr e
    ]

pub credential_response-sender :
    (d : String) (r : CredentialResponseParams) (t : CredTable) (id from : String)
    (p : CredentialResponseParams)
    → (credential_response d r t).1.cred_pending id ≡ some (some (from, p))
    → (d ≡ from) ⊎ (t.cred_pending id ≡ some (some (from, p)))
unfolding credential_response
credential_response-sender d r t id from p =
    let refusal = some (record { code = invalid_params; message = "request_id is required" }) in
    let delivered = deliver d r (t.cred_pending r.request_id) t in
    elim (str_eq r.request_id "")
      as (λ b.
        (if b then (refusal, t) else delivered).1.cred_pending id ≡ some (some (from, p))
        → (d ≡ from) ⊎ (t.cred_pending id ≡ some (some (from, p)))) [
          | true ↦ λ got. inr got
          | false ↦ deliver-sender d r (t.cred_pending r.request_id) t id from p
        ]

-- A request that has just been made has no response.
pub register-empty :
    (t : CredTable) (id : String) (x : String × CredentialResponseParams)
    → (register t).1.cred_pending id ≡ some (some x)
    → ((register t).0 ≢ id) × (t.cred_pending id ≡ some (some x))
unfolding register
register-empty t id x got =
    elim (put-some t.cred_pending (request_id (t.cred_next_id + 1)) id none (some x) got) [
      | inl (same, e) ↦ elim (none-some x e) [ ]
      | inr kept ↦ kept
    ]

step-FromOthers : (d : String) (v w : World) → Step d v w → FromOthers v → FromOthers w
unfolding FromOthers forget register
step-FromOthers d v _ (connects at) others c id from p waits got =
    others c id from p (put-asking v.loops d c id scanning scanning_asking waits) got
step-FromOthers d v _ (takes at) others c id from p waits got =
    others c id from p (put-asking v.loops d c id busy busy_asking waits) got
step-FromOthers d v _ (asks at) others c id from p waits got =
    let (fresh, old) = register-empty v.table id (from, p) got in
    elim (put-some v.loops d c (asking (register v.table).0) (asking id) waits) [
      | inl (same, e) ↦ elim (fresh (asking_injective (register v.table).0 id e)) [ ]
      | inr (differ, e) ↦ others c id from p e old
    ]
step-FromOthers d v _ (fails_to_ask at) others c id from p waits got =
    let left =
      delete-some (register v.table).1.cred_pending (register v.table).0 id (some (from, p)) got in
    others c id from p (put-asking v.loops d c id busy busy_asking waits)
      (register-empty v.table id (from, p) left).1
step-FromOthers d v _ (responds r at) others c id from p waits got =
    elim (credential_response-sender d r v.table id from p got) [
      | inl sender ↦ λ self.
          scanning_asking id
            (some_injective scanning (asking id) (sym at ∙ ap v.loops (sender ∙ self) ∙ waits))
      | inr old ↦ others c id from p waits old
    ]
step-FromOthers d v _ (receives i f q at held) others c id from p waits got =
    others c id from p (put-asking v.loops d c id busy busy_asking waits)
      (delete-some v.table.cred_pending i id (some (from, p)) got)
step-FromOthers d v _ (times_out i at) others c id from p waits got =
    others c id from p (put-asking v.loops d c id busy busy_asking waits)
      (delete-some v.table.cred_pending i id (some (from, p)) got)
step-FromOthers d v _ (returns at) others c id from p waits got =
    others c id from p (put-asking v.loops d c id scanning scanning_asking waits) got
step-FromOthers d v _ (ends at) others c id from p waits got =
    others c id from p (delete-some v.loops d c (asking id) waits) got

-- Whatever any number of clients send, in any order, and whichever handlers ask for credentials: a response that
-- has arrived for the request that a client's loop waits on was sent by another client. A client's own
-- response to the request that it is sent is not read before the wait has ended.
pub Reached-FromOthers :
    (P : String → Type 0) (w : World)
    → Reached P w
    → (c id from : String) (p : CredentialResponseParams) → w.loops c ≡ some (asking id)
    → w.table.cred_pending id ≡ some (some (from, p))
    → from ≢ c
unfolding FromOthers
Reached-FromOthers P _ begins c id from p waits got = elim (none-some (asking id) waits) [ ]
Reached-FromOthers P w (goes d v _ allowed reached step) c id from p waits got =
    step-FromOthers d v w step (λ e i f q h g. Reached-FromOthers P v reached e i f q h g) c id from
      p waits got
