-- ===== src/Models/Tests.antt =====
-- The round trip of a concrete event.
use vexyl_guard.Prelude.{◌≡◌, refl}
use vexyl_guard.Scoring.Run.{plain, chat}
use vexyl_guard.Models.Reading.{Fresh, from_dict, to_dict}
use vexyl_guard.Models.RoundTrip.{from_dict-to_dict}

abbrev unused : Fresh
unused = record { event_id = "e2"; timestamp_utc = "2026-07-21T00:00:00Z" }

from_dict-to_dict_example : from_dict plain unused (to_dict chat) ≡ chat
from_dict-to_dict_example = from_dict-to_dict plain unused chat refl refl refl refl refl refl
