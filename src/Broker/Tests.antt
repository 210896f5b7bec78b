-- ===== src/Broker/Tests.antt =====
-- A broker with two requests, one of them cancelled before the host receives it.
use linguamesh_core.Base.{some, List, [], ◌∷◌, ◌≡◌, ◌≤◌, ◌⊎◌, refl, err, false, Memᴰ, length, codes}
use linguamesh_core.Failure.{new_error, secret_unavailable}
use linguamesh_core.Broker.{
  close, enqueue, step, Broker, BrokerAction, request, receive, cancel, answer, provided,
  unavailable, run_actions, answered, receiver_dropped, resolution, host_secret_channel, respond,
  recv,
}
use linguamesh_core.Broker.Answers.{run_actions-resolution}

abbrev new_broker : Broker
new_broker = record {
  capacity = 1;
  next = 0;
  channel = λ id. receiver_dropped;
  queue = [];
  held = [];
  is_closed = false;
}

abbrev one_answer : List BrokerAction
one_answer = request ∷ receive ∷ answer 0 (provided (codes "key")) ∷ []

abbrev two_requests : List BrokerAction
two_requests = request ∷ cancel 0 ∷ receive ∷ request ∷ receive ∷ answer 1 unavailable ∷ []

second_answer : (respond 0 unavailable (run_actions one_answer new_broker)).0 ≡ err tt
unfolding respond step recv linguamesh_core.Broker.enqueue
second_answer = refl

cancelled_request :
    resolution false ((run_actions two_requests new_broker).channel 0)
    ≡ resolution false receiver_dropped
unfolding step respond recv linguamesh_core.Broker.enqueue resolution
    linguamesh_core.Broker.drop_receiver
cancelled_request = refl

-- A request that is queued when the host goes away is not completed, and a later one is refused.
abandoned :
    resolution false ((run_actions (request ∷ close ∷ []) new_broker).channel 0)
    ≡ some
        (err (new_error secret_unavailable (codes "The host did not complete the secret request.")))
unfolding resolution step linguamesh_core.Broker.drop_requests enqueue
abandoned = refl

refused_request :
    enqueue (run_actions (close ∷ []) new_broker)
    ≡ err (new_error secret_unavailable (codes "The host secret service is unavailable."))
unfolding enqueue step linguamesh_core.Broker.drop_requests
refused_request = refl

run_actions-resolution_example :
    (false ≡ false)
    × Memᴰ (answer 0 (provided (codes "key"))) one_answer
    × (length (run_actions one_answer new_broker).queue ≤ 1)
    × (((run_actions (cancel 0 ∷ []) (run_actions one_answer new_broker)).channel 0
          ≡ answered (provided (codes "key")))
        ⊎ ((run_actions (cancel 0 ∷ []) (run_actions one_answer new_broker)).channel 0
            ≡ receiver_dropped))
unfolding host_secret_channel resolution step respond recv linguamesh_core.Broker.enqueue
run_actions-resolution_example =
    run_actions-resolution 1 new_broker one_answer (cancel 0 ∷ []) 0 false (codes "key") refl refl
