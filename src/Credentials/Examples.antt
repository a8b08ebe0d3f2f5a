-- ===== src/Credentials/Examples.antt =====
-- One client that connects, sends a request, and is asked for a credential.
use mole_port.Base.{String, [], false, inl, inr, itoa, refl, some, ◌≡◌, ◌≢◌, ◌⊎◌}
use mole_port.Credentials.Pending.{CredentialResponseParams, credential_response, register}
use mole_port.Credentials.Waiting.{
  Reached, World, ask, asks, begins, busy, connects, goes, move, new_world, resume, scanning, takes,
  times_out,
}
use mole_port.Credentials.Alone.{only_client-times_out}
use mole_port.Credentials.Pending.{request_id}
use mole_port.Credentials.Waiting.{responds}

abbrev connected_world : World
connected_world = move "client-1" scanning new_world

abbrev busy_world : World
busy_world = move "client-1" busy connected_world

abbrev waiting_world : World
unfolding register request_id itoa
waiting_world = ask "client-1" busy_world

abbrev IsFirst : String → Type 0
IsFirst d = d ≡ "client-1"

waiting-Reached : Reached IsFirst waiting_world
unfolding waiting_world
waiting-Reached =
    goes "client-1" busy_world (ask "client-1" busy_world) refl
      (goes "client-1" connected_world busy_world refl
        (goes "client-1" new_world connected_world refl begins (connects refl)) (takes refl))
      (asks refl)

abbrev secret : CredentialResponseParams
secret = record { request_id = "cr-1"; value = "secret"; answers = []; cancelled = false }

only_client-times_out_example :
    (resume "client-1" "cr-1" waiting_world ≡ resume "client-1" "cr-1" waiting_world)
    × (waiting_world.table.cred_pending "cr-1" ≢ some (some ("client-1", secret)))
unfolding waiting_world request_id itoa register
only_client-times_out_example =
    only_client-times_out "client-1" "cr-1" "client-1" secret waiting_world
      (resume "client-1" "cr-1" waiting_world) waiting-Reached refl (times_out "cr-1" refl)

-- A second client, which answers for the first
abbrev both_world : World
both_world = move "client-2" scanning waiting_world

abbrev answered_world : World
unfolding credential_response
answered_world = record both_world {
  table = (credential_response "client-2" secret both_world.table).1;
}

abbrev IsEither : String → Type 0
IsEither d = (d ≡ "client-1") ⊎ (d ≡ "client-2")

answered-Reached : Reached IsEither answered_world
unfolding answered_world waiting_world register request_id itoa
answered-Reached =
    goes "client-2" both_world answered_world (inr refl)
      (goes "client-2" waiting_world both_world (inr refl)
        (goes "client-1" busy_world (ask "client-1" busy_world) (inl refl)
          (goes "client-1" connected_world busy_world (inl refl)
            (goes "client-1" new_world connected_world (inl refl) begins (connects refl))
            (takes refl))
          (asks refl))
        (connects refl))
      (responds secret refl)

abbrev first_name : String
first_name = "client-1"

abbrev second_name : String
second_name = "client-2"
