-- ===== src/MongooseDrv/Text/Tests.antt =====
-- Reading numbers, and the theorem at a concrete input.
use hq_components.Prelude.{arith, refl, ◌≡◌}
use hq_components.MongooseDrv.Text.{bytes, str2int, str2int_from}
use hq_components.MongooseDrv.Text.Numbers.{str2int-print}
use hq_components.MongooseDrv.Sample.{print, print-PrintsLong}

stops_at_letter : str2int (bytes "42 ticks") ≡ 42
unfolding str2int str2int_from
stops_at_letter = refl

str2int-print_test : (str2int (print 4096) ≡ 4096) × (str2int (print 3000000000) ≡ 0)
str2int-print_test = (
  str2int-print print print-PrintsLong 4096 (omega arith),
  str2int-print print print-PrintsLong 3000000000 (omega arith),
)
