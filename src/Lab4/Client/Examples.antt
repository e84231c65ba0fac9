-- ===== src/Lab4/Client/Examples.antt =====
-- Two calls of which the first gets its response and the second gives up.
use nssa_ds.Base.{List, [], ◌∷◌}
use nssa_ds.Base.Text.{text}
use nssa_ds.Lab4.Client.{
  Response, new_udp_client, Action, start, deliver, take_response, give_up, remove, close, run,
}
use nssa_ds.Lab4.Client.Calls.{IsClient}
use nssa_ds.Lab4.Client.Safe.{run-IsClient}

abbrev response : Response
response = record { id = text "a"; service = text "echo"; body = 1 ∷ []; error = [] }

abbrev actions : List Action
actions =
    start (text "a")
    ∷ (start (text "b")
        ∷ (deliver response
            ∷ (give_up 1
                ∷ (take_response 0
                    ∷ (remove 0 ∷ (close 0 ∷ (remove 1 ∷ (deliver response ∷ []))))))))

run-IsClient_example : IsClient (run actions new_udp_client)
run-IsClient_example = run-IsClient actions
