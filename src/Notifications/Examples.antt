-- ===== src/Notifications/Examples.antt =====
-- A run of a notification on concrete inputs, and the theorem at these inputs.
use leadkart_go.Base.{◌≡◌, refl, true, List, [], ◌∷◌, ◌++◌, some, ok}
use leadkart_go.Base.Text.{codes, trim_space, byte_len}
use leadkart_go.Notifications.Notification.Catalogues.{
  read, dismissed, order_confirmed, is_terminal,
}
use leadkart_go.Notifications.Notification.{
  NewInput, created, new, mark_read, dismiss, pull_events, Call, marks_read, dismisses,
  pulls_events, step, run,
}
use leadkart_go.Notifications.Notification.Inbox.{replay, view, replay_of_inbox}

abbrev input : NewInput
input = record {
  id = codes "n-1";
  tenant_id = codes "t-1";
  recipient_membership_id = codes "m-1";
  category = order_confirmed;
  title = codes " Order 7 ";
  body = [];
  source_module = codes "orders";
  source_entity_type = codes "orders";
  source_entity_id = codes "o-7";
  deep_link = codes "/orders/7";
  now = 10;
}

noted : new input ≡ ok (created input)
unfolding new trim_space byte_len
noted = refl

-- A reading, a second one that does nothing, a dismissal, and a reading that is refused.
abbrev calls : List Call
calls = marks_read 20 ∷ marks_read 30 ∷ pulls_events ∷ dismisses 40 ∷ marks_read 50 ∷ []

shown :
    view (run [] (created input) calls).1
    ≡ record { state = dismissed; read_at = some 20; dismissed_at = some 40 }
unfolding run step mark_read dismiss pull_events
shown = refl

-- A state that allows no further transitions by its name is left by a dismissal.
read_is_terminal : is_terminal read ≡ true
read_is_terminal = refl

replay_of_inbox_example :
    let (outbox, m) = run [] (created input) calls in replay (outbox ++ m.events) ≡ some (view m)
replay_of_inbox_example = replay_of_inbox input (created input) calls noted
