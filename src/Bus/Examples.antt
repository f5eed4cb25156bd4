-- ===== src/Bus/Examples.antt =====
-- Runs of the event bus.
use southpaw_turbohaul.Base.{◌≡◌, List, [], ◌∷◌, All, map}
use southpaw_turbohaul.Bus.{
  Event, Subscriber, EventBus, Happening, subscribes, reads, publishes, happen_all,
}
use southpaw_turbohaul.Bus.Redaction.{HoldsSafe, happen_all-AllSafe}
use southpaw_turbohaul.Bus.Delivery.{delivered, publish_all-delivered}

abbrev loading_event : Event
loading_event = ("event", "stage_to_loading") ∷ ("prompt", "hello") ∷ []

abbrev small_subscriber : Subscriber
small_subscriber = record { queue_id = 1; maxsize = 1; items = [] }

abbrev happenings : List Happening
happenings =
    subscribes small_subscriber ∷ publishes loading_event ∷ publishes loading_event ∷ reads 1 ∷ []

happen_all-AllSafe_example : All HoldsSafe (happen_all happenings [])
happen_all-AllSafe_example = happen_all-AllSafe happenings [] (tt, (tt, (tt, (tt, tt)))) tt

abbrev bus : EventBus
bus = small_subscriber ∷ record { queue_id = 2; maxsize = 0; items = [] } ∷ []

publish_all-delivered_example :
    happen_all (map publishes (loading_event ∷ loading_event ∷ [])) bus
    ≡ map (delivered (loading_event ∷ loading_event ∷ [])) bus
publish_all-delivered_example = publish_all-delivered (loading_event ∷ loading_event ∷ []) bus
