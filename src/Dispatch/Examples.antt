-- ===== src/Dispatch/Examples.antt =====
-- A run of a consignment note on concrete inputs, and the theorem at these inputs.
use leadkart_go.Base.{◌≡◌, refl, Bool, not, List, [], ◌∷◌, ◌++◌, some, ok, is_empty}
use leadkart_go.Base.Int64.{pos}
use leadkart_go.Base.Text.{Str, codes, trim_space}
use leadkart_go.Base.Uuid.{validate_uuid}
use leadkart_go.Dispatch.ConsignmentNote.{
  NewInput, created, new, advance, mark_dispatched, mark_delivered, mark_failed, pull_events, Call,
  marks_dispatched, marks_delivered, marks_failed, pulls_events, step, run,
}
use leadkart_go.Dispatch.ConsignmentNote.Journey.{replay, IsStamped, replay_of_journey}

-- A stand-in for the parser of ids.
abbrev is_id : Str → Bool
is_id s = not (is_empty s)

abbrev input : NewInput
input = record {
  id = codes "n-1";
  tenant_id = codes "t-1";
  order_id = codes "o-1";
  carrier_name = codes " Blue Dart ";
  box_count = pos 3;
  weight_grams = pos 1200;
  expected_delivery_at = some 90;
  created_by_membership_id = codes "m-1";
  now = 10;
}

noted : new is_id input ≡ ok (created input)
unfolding new validate_uuid trim_space
noted = refl

-- A dispatch, a failure, a late delivery that is refused, and a second failure.
abbrev calls : List Call
calls =
    marks_dispatched (codes "D7") (codes "m-1") 20
    ∷ marks_failed (codes "absent") (codes "m-1") 30
    ∷ pulls_events
    ∷ marks_delivered (codes "m-1") 40
    ∷ marks_failed (codes "refused") [] 0
    ∷ []

-- The second failure replaces the reason of the first, without an actor or a time.
reason_replaced : (run [] (created input) calls).1.failure_reason ≡ codes "refused"
unfolding run step advance mark_dispatched mark_delivered mark_failed pull_events trim_space
reason_replaced = refl

replay_of_journey_example :
    let (outbox, m) = run [] (created input) calls in
    (replay (outbox ++ m.events) ≡ some m.status) × IsStamped m
replay_of_journey_example = replay_of_journey is_id input (created input) calls noted
