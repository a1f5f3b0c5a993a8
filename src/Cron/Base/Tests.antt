-- ===== src/Cron/Base/Tests.antt =====
-- `getNextRunTimesFromBase` at a concrete input.
use cockpit_cronplus.Common.{[], ◌∷◌, pos, codes}
use cockpit_cronplus.Cron.Field.{values, wildcard}
use cockpit_cronplus.Cron.Next.{Spec, Fields}

abbrev every_twenty : Spec
every_twenty = record {
  sec = codes "0";
  min = codes "*/20";
  hour = codes "9";
  day = codes "*";
  month = codes "*";
  dow = codes "1-5";
}

abbrev twenty_fields : Fields
twenty_fields = record {
  sec = values (pos 0 ∷ []);
  min = values (pos 0 ∷ pos 20 ∷ pos 40 ∷ []);
  hour = values (pos 9 ∷ []);
  day = wildcard;
  month = wildcard;
  dow = values (pos 1 ∷ pos 2 ∷ pos 3 ∷ pos 4 ∷ pos 5 ∷ []);
}
