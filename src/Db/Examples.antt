-- ===== src/Db/Examples.antt =====
-- Runs on small tables.
use southpaw_turbohaul.Base.{
  ◌≡◌, refl, true, none, some, List, [], ◌∷◌, map, length, keep, All, nat_eq,
}
use southpaw_turbohaul.Slot.{staged, active}
use southpaw_turbohaul.Slot.Samples.{plain_meta}
use southpaw_turbohaul.Db.{
  Row, SlotValues, reconcile_orphaned_slots, boot_reconcile, known_active_pids,
}
use southpaw_turbohaul.Db.Rows.{IsKeyed}
use southpaw_turbohaul.Db.Reconcile.{is_lost, settle, reconcile-settle}
use southpaw_turbohaul.Db.Boot.{boot_reconcile-alive}

abbrev staged_row : Row
staged_row = record {
  slot_id = "s1";
  model_tag = "qwen";
  thread_id = some "t1";
  state = staged;
  port = none;
  pid = none;
  created_at = 100;
  updated_at = 100;
  ended_at = none;
  end_reason = none;
  extension_count = 0;
  client_meta = plain_meta;
}

abbrev active_row : Row
active_row = record staged_row { slot_id = "s2"; state = active; pid = some 42; port = some 11500 }

abbrev table : List Row
table = staged_row ∷ active_row ∷ []

table-IsKeyed : IsKeyed table
table-IsKeyed = (refl, (refl, tt))

reconcile-settle_example :
    reconcile_orphaned_slots (7 ∷ []) 200 table
    ≡ (length (keep (is_lost (7 ∷ [])) table), map (settle (7 ∷ []) 200) table)
reconcile-settle_example = reconcile-settle (7 ∷ []) 200 table table-IsKeyed

boot_reconcile-alive_example :
    All
      (λ p. nat_eq p 42 ≡ true)
      (known_active_pids (boot_reconcile (λ p. nat_eq p 42) 200 table).1)
boot_reconcile-alive_example = boot_reconcile-alive (λ p. nat_eq p 42) 200 table table-IsKeyed

abbrev active_values : SlotValues
active_values = record {
  slot_id = "s1";
  model_tag = "other";
  thread_id = some "t1";
  state = active;
  port = some 11500;
  pid = some 43;
  created_at = none;
  ended_at = none;
  end_reason = none;
  extension_count = 0;
  client_meta = plain_meta;
}
