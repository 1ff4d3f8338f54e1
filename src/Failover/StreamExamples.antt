-- ===== src/Failover/StreamExamples.antt =====
-- A stream at two channels: the first is overloaded, the second streams a line and its end.
use five_api.Base.{ℕ, refl, Bool, false, none, some, String, [], ◌∷◌, ◌==◌, if◌then◌else◌, length}
use five_api.Redis.{plain}
use five_api.Failover.Errors.{Kind}
use five_api.Failover.Streaming.{Script}
use five_api.Failover.Stream.{stream_with_failover}
use five_api.Failover.Reading.{AllFrom}
use five_api.Failover.Delivery.{stream-FromLast}
use five_api.Failover.Books.{IsOver}
use five_api.Failover.StreamEnds.{stream-IsOver}
use five_api.Failover.Examples.{gateway, two_providers, call, lease, desk, overloaded}

abbrev scripts : ℕ → ℕ → Script
scripts channel n =
    if channel == 1
    then record {
      headers = [];
      chunks = [];
      ending = some (record { kind = overloaded; message = "429" });
    }
    else record {
      headers = [];
      chunks =
          record { line = "data: {}"; usage = none }
          ∷ record { line = "data: [DONE]"; usage = none }
          ∷ [];
      ending = none;
    }

abbrev stays : ℕ → Bool
stays n = false

abbrev plain_event : Kind → String
plain_event e = "data: {}"

stream-FromLast_example :
    let f =
      (stream_with_failover plain gateway stays scripts plain_event none call two_providers
        desk).flow in
    AllFrom (length f.desk.sends) f.delivered
stream-FromLast_example =
    stream-FromLast plain gateway stays scripts call plain_event none two_providers desk

stream-IsOver_example :
    IsOver plain gateway 7
      (stream_with_failover plain gateway stays scripts plain_event none call two_providers
        desk).flow.desk
stream-IsOver_example =
    stream-IsOver plain gateway 7 stays scripts call refl plain_event none two_providers lease desk
      refl refl refl refl refl
