-- ===== src/Utils/Case.antt =====
-- Comparison of option names without regard to case.
use redis_protobuf.Base.{◌≡◌, refl, true, [], ◌∷◌, Bytes, map, arith, ◌↔◌}
use redis_protobuf.Utils.{toupper, str_case_equal}

case_sound : (s t : Bytes) → str_case_equal s t ≡ true → map toupper s ≡ map toupper t
unfolding str_case_equal
case_sound [] [] h = refl
case_sound [] (b ∷ t) h = ground arith
case_sound (a ∷ s) [] h = ground arith
case_sound (a ∷ s) (b ∷ t) h = ground (arith, case_sound s t)

case_complete : (s t : Bytes) → map toupper s ≡ map toupper t → str_case_equal s t ≡ true
unfolding str_case_equal
case_complete [] [] h = refl
case_complete [] (b ∷ t) h = cc
case_complete (a ∷ s) [] h = cc
case_complete (a ∷ s) (b ∷ t) h = ground (arith, case_complete s t)

-- Two texts are equal without regard to case exactly when their upper-case forms are equal: the
-- test on the sizes loses nothing, and neither does the loop.
pub str_case_equal_iff :
    (s t : Bytes) → (str_case_equal s t ≡ true) ↔ (map toupper s ≡ map toupper t)
str_case_equal_iff s t = (case_sound s t, case_complete s t)
