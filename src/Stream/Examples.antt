-- ===== src/Stream/Examples.antt =====
-- The theorems on the streams at a stream of four events with room for three in the buffer and for
-- two in the queue.
use agent_learn.Base.{ℕ, ◌≡◌, refl, inl, false, none, some, List, [], ◌∷◌, arith, length}
use agent_learn.Stream.{
  EventType, token, done, running, completed, block, Stream, new, Subscriber, subscribe, publish,
  put, append, put_ends, poll, resume, next_event, receive, transition_safe, allowed, oldest_seq,
  validate_replay_window, replay, final_seq, first_seq, last_seq, is_terminal,
}
use agent_learn.Stream.Replay.{fill, Resumes, replay-Resumes}
use agent_learn.Stream.Flow.{Act, publishes, ends, moves, polls, run, ahead_of}
use agent_learn.Stream.Delivery.{InOrder, subscriber-InOrder}

abbrev payloads : List (EventType × ℕ)
payloads = (token, 70) ∷ (token, 71) ∷ (token, 72) ∷ (done, 0) ∷ []

replay-Resumes_example : Resumes (fill (record { max_events = 3; events = [] }) 0 payloads) 4 2
replay-Resumes_example = replay-Resumes 3 2 payloads (omega arith) (omega arith)

-- The client goes away after the second token, and the third waits for room in the queue.
abbrev nobody : Subscriber
nobody = record { delivered = 0; replaying = none; yielded = []; returned = false }

abbrev acts : List Act
acts = moves running ∷ publishes token 70 ∷ polls ∷ publishes token 71 ∷ publishes token 72 ∷ []

abbrev client : Subscriber
client = record {
  delivered = 3;
  replaying = some (
      record { seq = 2; type = token; data_ = 71 }
      ∷ record { seq = 3; type = token; data_ = 72 }
      ∷ []);
  yielded = [];
  returned = false;
}

abbrev later : List Act
later = polls ∷ polls ∷ ends done 0 ∷ polls ∷ moves completed ∷ polls ∷ []

-- The stream when the client comes back.
abbrev stopped : Stream
stopped = (run (new 3 2 block, nobody) acts).0

subscribed : subscribe stopped 1 ≡ some client
unfolding run new subscribe publish put append put_ends poll resume next_event receive
    transition_safe allowed validate_replay_window oldest_seq last_seq first_seq final_seq replay
    is_terminal
subscribed = refl

subscriber-InOrder_example :
    InOrder 1 (run (stopped, client) later).1
    × ((run (stopped, client) later).1.returned ≡ false
        → length (ahead_of (run (stopped, client) later).0) ≡ 0
        → (run (stopped, client) later).1.delivered ≡ (run (stopped, client) later).0.seq)
subscriber-InOrder_example =
    subscriber-InOrder 3 2 1 nobody client acts later (omega arith) subscribed (inl (omega arith))
