-- ===== src/Examples/Serialize.antt =====
-- Witness for src/serialize.rs: the first minute of 29 February 1972.
use dsct.Base.{◌≡◌, refl, some, arith}
use dsct.Serialize.Timestamp.{TimeParts, decompose_timestamp}
use dsct.Serialize.Gregorian.{seconds_of, IsMoment}
use dsct.Serialize.Calendar.{decompose_timestamp-IsMoment}

leap_day :
    decompose_timestamp 68169659
    ≡ some (record { year = 1972; month = 2; day = 29; hours = 0; minutes = 0; seconds = 59 })
unfolding decompose_timestamp
leap_day = refl

decompose_timestamp-IsMoment_example :
    (p : TimeParts) × (decompose_timestamp 68169659 ≡ some p)
    × (seconds_of p ≡ 68169659)
    × IsMoment p
decompose_timestamp-IsMoment_example = decompose_timestamp-IsMoment 68169659 (omega arith)
