-- ===== src/Drv/FastAdd/Tests.antt =====
-- Runs of the list of changing values, and its theorems at concrete inputs.
use hq_components.Prelude.{
  List, [], arith, if◌then◌else◌, length, ltb, not, refl, true, ℕ, ◌&&◌, ◌==◌, ◌||◌, ◌∷◌, ◌≡◌, ◌≤◌,
}
use hq_components.Drv.FastAdd.{
  FastAdd, fp_plus_10, fp_minus, add_value, pass, pass_entry, add_process, is_listed, start, stop,
}
use hq_components.Drv.FastAdd.Bounds.{
  IsLimited, InLimits, IsDistinct, pass-InLimits, add_value-low_limit,
}
use hq_components.Drv.FastAdd.Entries.{stop-is_listed, start-is_listed}

abbrev volume : FastAdd
volume = record { counter = 15; delay = 0; value = 1; max = 100; min = 0; sign = fp_plus_10 }

abbrev speed : FastAdd
speed = record { counter = 3; delay = 1; value = 2; max = 20; min = 5; sign = fp_minus }

abbrev both : List FastAdd
both = volume ∷ speed ∷ []

abbrev memory : ℕ → ℕ
memory a = if a == 1 then 95 else 6

one_pass : ((pass both memory).1 1 ≡ 100) × ((pass both memory).1 2 ≡ 5)
unfolding pass pass_entry add_process add_value
one_pass = (refl, refl)

volume-IsLimited : IsLimited volume
volume-IsLimited = record { ten = omega arith; word = omega arith; room = omega arith }

speed-IsLimited : IsLimited speed
speed-IsLimited = record { ten = omega arith; word = omega arith; room = omega arith }

both-IsDistinct : IsDistinct both
both-IsDistinct = ((λ e. omega arith, tt), (tt, tt))

pass-InLimits_example : let (es', mem') = pass both memory in InLimits es' mem'
pass-InLimits_example = pass-InLimits both memory both-IsDistinct (
  (volume-IsLimited, omega arith, omega arith),
  ((speed-IsLimited, omega arith, omega arith), tt),
)

passes_the_limit : add_value fp_plus_10 5 0 5 ≡ 15
passes_the_limit = add_value-low_limit 5 0 5 (omega arith) (omega arith)

stop-is_listed_test : is_listed 2 (stop true 1 both) ≡ (is_listed 2 both && not (2 == 1))
stop-is_listed_test = stop-is_listed 1 2 both both-IsDistinct

start-is_listed_test :
    let es' = start true 1 100 0 fp_plus_10 both in
    IsDistinct es'
    × (length es' ≤ 8)
    × ((a : ℕ) → is_listed a es' ≡ (is_listed a both || (true && ltb (length both) 8 && a == 1)))
start-is_listed_test = start-is_listed true 1 100 0 fp_plus_10 both both-IsDistinct (omega arith)
