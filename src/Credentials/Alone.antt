-- ===== src/Credentials/Alone.antt =====
-- internal/ipc/server.go and internal/ipc/handler/handler_ssh.go: one client alone asks for a credential.
use mole_port.Base.{
  String, ap, delete-some, inl, inr, none-some, some, some_injective, subst, sym, ◌∙◌, ◌≡◌, ◌≢◌,
}
use mole_port.Credentials.Pending.{CredentialResponseParams, forget, register}
use mole_port.Credentials.Waiting.{
  Place, Reached, Step, World, asking, asks, begins, busy, connects, ends, fails_to_ask, goes,
  resume, returns, scanning, takes, times_out,
}
use mole_port.Credentials.Senders.{
  Reached-FromOthers, asking_injective, busy_asking, credential_response-sender, register-empty,
  scanning_asking,
}
use mole_port.Credentials.Waiting.{responds}
use mole_port.Credentials.Waiting.{receives}

-- Every response that waits was sent by a client that takes part.
SentBy : (String → Type 0) → World → Type 0
SentBy P w =
    (id from : String) (p : CredentialResponseParams)
    → w.table.cred_pending id ≡ some (some (from, p))
    → P from

step-SentBy :
    (P : String → Type 0) (d : String) (v w : World) → P d → Step d v w → SentBy P v → SentBy P w
unfolding SentBy forget register
step-SentBy P d v _ allowed (connects at) sent id from p got = sent id from p got
step-SentBy P d v _ allowed (takes at) sent id from p got = sent id from p got
step-SentBy P d v _ allowed (asks at) sent id from p got =
    sent id from p (register-empty v.table id (from, p) got).1
step-SentBy P d v _ allowed (fails_to_ask at) sent id from p got =
    let left =
      delete-some (register v.table).1.cred_pending (register v.table).0 id (some (from, p)) got in
    sent id from p (register-empty v.table id (from, p) left).1
step-SentBy P d v _ allowed (responds r at) sent id from p got =
    elim (credential_response-sender d r v.table id from p got) [
      | inl sender ↦ subst P sender allowed
      | inr old ↦ sent id from p old
    ]
step-SentBy P d v _ allowed (receives i f q at held) sent id from p got =
    sent id from p (delete-some v.table.cred_pending i id (some (from, p)) got)
step-SentBy P d v _ allowed (times_out i at) sent id from p got =
    sent id from p (delete-some v.table.cred_pending i id (some (from, p)) got)
step-SentBy P d v _ allowed (returns at) sent id from p got = sent id from p got
step-SentBy P d v _ allowed (ends at) sent id from p got = sent id from p got

Reached-SentBy : (P : String → Type 0) (w : World) → Reached P w → SentBy P w
unfolding SentBy
Reached-SentBy P _ begins id from p got = elim (none-some (some (from, p)) got) [ ]
Reached-SentBy P w (goes d v _ allowed reached step) id from p got =
    step-SentBy P d v w allowed step (Reached-SentBy P v reached) id from p got

waits_here :
    (c i id : String) (v : World)
    → v.loops c ≡ some (asking id)
    → v.loops c ≡ some (asking i)
    → i ≡ id
waits_here c i id v waits at =
    asking_injective i id (some_injective (asking i) (asking id) (sym at ∙ waits))

elsewhere :
    (c id : String) (q : Place) (v : World)
    → ((j : String) → q ≢ asking j)
    → v.loops c ≡ some (asking id)
    → v.loops c ≡ some q
    → ⊥
elsewhere c id q v free waits at = free id (some_injective q (asking id) (sym at ∙ waits))

unanswered :
    (c id : String) (v : World)
    → Reached (λ d. d ≡ c) v
    → v.loops c ≡ some (asking id)
    → (from : String) (p : CredentialResponseParams)
    → v.table.cred_pending id ≢ some (some (from, p))
unfolding SentBy
unanswered c id v reached waits from p got =
    Reached-FromOthers (λ d. d ≡ c) v reached c id from p waits got
      (Reached-SentBy (λ d. d ≡ c) v reached id from p got)

only_step :
    (c id : String) (v w : World) → v.loops c ≡ some (asking id) → Step c v w → w ≡ resume c id v
only_step c id v _ waits (connects at) = elim (none-some (asking id) (sym at ∙ waits)) [ ]
only_step c id v _ waits (takes at) = elim (elsewhere c id scanning v scanning_asking waits at) [ ]
only_step c id v _ waits (asks at) = elim (elsewhere c id busy v busy_asking waits at) [ ]
only_step c id v _ waits (fails_to_ask at) = elim (elsewhere c id busy v busy_asking waits at) [ ]
only_step c id v _ waits (responds r at) =
    elim (elsewhere c id scanning v scanning_asking waits at) [ ]
only_step c id v _ waits (receives i f q at held) =
    ap (λ j. resume c j v) (waits_here c i id v waits at)
only_step c id v _ waits (times_out i at) = ap (λ j. resume c j v) (waits_here c i id v waits at)
only_step c id v _ waits (returns at) = elim (elsewhere c id busy v busy_asking waits at) [ ]
only_step c id v _ waits (ends at) = elim (elsewhere c id scanning v scanning_asking waits at) [ ]

-- While one client alone is served, each of its handlers that waits for a credential goes on by its timer only: from
-- there, the one next world is that of the request given up, where no response was received.
pub only_client-times_out :
    (c id from : String) (p : CredentialResponseParams) (v w : World)
    → Reached (λ d. d ≡ c) v
    → v.loops c ≡ some (asking id)
    → Step c v w
    → (w ≡ resume c id v) × (v.table.cred_pending id ≢ some (some (from, p)))
only_client-times_out c id from p v w reached waits step =
    (only_step c id v w waits step, unanswered c id v reached waits from p)
