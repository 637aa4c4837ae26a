-- ===== src/Drv/Ultrasonar/Tests.antt =====
-- The sensor on short lines.
use hq_components.Prelude.{
  List, [], arith, false, ltb, refl, replicate, true, ℕ, ◌&&◌, ◌+◌, ◌∷◌, ◌≡◌,
}
use hq_components.Drv.Ultrasonar.{Sonar, power_up, scan, rounds, get_distance}
use hq_components.Drv.Ultrasonar.Frames.{Part, noise, distance_of, line, heard, scan-line}
use hq_components.Drv.Ultrasonar.Bounds.{IsValid, rounds-IsValid, power_up-IsValid}
use hq_components.Drv.Ultrasonar.Silence.{rounds-silence}

abbrev parts : List Part
parts = noise 7 (omega arith) ∷ distance_of 511 (omega arith) ∷ distance_of 255 (omega arith) ∷ []

scan-line_example : scan (line parts) 0 false power_up ≡ heard parts false power_up
scan-line_example = scan-line parts false power_up

abbrev read : List ℕ
read = 255 ∷ 1 ∷ 0 ∷ []

rounds-IsValid_test : IsValid (rounds (read ∷ read ∷ []) power_up)
rounds-IsValid_test = rounds-IsValid (read ∷ read ∷ []) power_up power_up-IsValid

abbrev heard_once : Sonar
heard_once = record power_up { silos_is_connected = true }

rounds-silence_example :
    (rounds ([] ∷ (1 ∷ []) ∷ []) heard_once).silos_is_connected ≡ (true && ltb (0 + 2) 7)
rounds-silence_example =
    rounds-silence ([] ∷ (1 ∷ []) ∷ []) heard_once (tt, ((omega arith, tt), tt)) (omega arith)

-- A frame that two reads share is lost.
split_frame_lost : get_distance (rounds ((255 ∷ 1 ∷ []) ∷ (0 ∷ []) ∷ []) power_up) ≡ 0
unfolding rounds
split_frame_lost = refl

-- The old distance counts with the table: 33 times 320 gives 330.
steady_distance : get_distance (rounds (replicate 33 (255 ∷ 1 ∷ 64 ∷ [])) power_up) ≡ 330
unfolding rounds
steady_distance = refl
