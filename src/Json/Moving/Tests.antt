-- ===== src/Json/Moving/Tests.antt =====
-- Roots of json/JSON.cpp that are moved.
use dumais_lib.Prelude.{◌≡◌, refl, codes}
use dumais_lib.Json.Edit.{text}
use dumais_lib.Json.Moving.{new_roots, move_assign, add_value_at, no_fuel, add_value_at-moved}

add_value_at-moved_example :
    (add_value_at 9 (text (codes "v")) (codes "k") 0 (move_assign 0 1 new_roots) ≡ no_fuel)
    × (add_value_at 9 (text (codes "v")) (codes "k") 1 (move_assign 0 1 new_roots) ≡ no_fuel)
add_value_at-moved_example = add_value_at-moved 9 (text (codes "v")) (codes "k") 0 1 refl
