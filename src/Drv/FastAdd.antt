-- ===== src/Drv/FastAdd.antt =====
-- drv/fast_add.c: the values that change by themselves while a button is held.
-- The values that the list's pointers point to are a memory, a function from addresses to words;
-- an entry's `value` is an address. What the callbacks do lies outside. The mutex is not recursive:
-- fastProcessStart calls fastProcessStop while it holds it, so that the inner take times out.
pub mod Bounds
pub mod Entries
mod Tests
use hq_components.Prelude.{
  Bool, List, [], false, if◌then◌else◌, length, ltb, min, not, sub32, u32, ℕ, ◌++◌, ◌+◌, ◌==◌, ◌||◌,
  ◌∷◌,
}

-- fast_process_sign
pub data Sign : Type 0 where
  fp_minus fp_plus fp_plus_10 fp_minus_10 : Sign

-- fast_add_t
pub record FastAdd : Type 0 where
  pub counter : ℕ
  pub delay : ℕ
  pub value : ℕ
  pub max : ℕ
  pub min : ℕ
  pub sign : Sign

abbrev pub fast_add_list_size : ℕ
fast_add_list_size = 8

-- The new value that _add_process gives an entry's value.
unfoldable pub add_value : Sign → ℕ → ℕ → ℕ → ℕ
add_value fp_plus max min v = if ltb v max then u32 (v + 1) else v
add_value fp_minus max min v = if ltb min v then sub32 v 1 else v
add_value fp_plus_10 max min v =
    if ltb v (sub32 max 10) then u32 (v + 10) else if ltb v max then max else v
add_value fp_minus_10 max min v =
    if ltb (u32 (min + 10)) v then sub32 v 10 else if ltb min v then min else v

-- `*value = v`
abbrev pub store : (ℕ → ℕ) → ℕ → ℕ → (ℕ → ℕ)
store mem at v = λ a. if a == at then v else mem a

-- _add_process
unfoldable pub add_process : FastAdd → (ℕ → ℕ) → (ℕ → ℕ)
unfolding add_value
add_process e mem = store mem e.value (add_value e.sign e.max e.min (mem e.value))

-- What the task does for one entry in one pass.
unfoldable pub pass_entry : FastAdd → (ℕ → ℕ) → FastAdd × (ℕ → ℕ)
unfolding add_process
pass_entry e mem =
    if ltb e.counter 15
    then (if ltb e.delay 1
        then (record e { delay = u32 (e.delay + 1) }, mem)
        else (record e { delay = 0; counter = u32 (e.counter + 1) }, add_process e mem))
    else (record e { delay = 0; counter = u32 (e.counter + 1) }, add_process e mem)

-- One pass of fast_add over the list, each take of the mutex succeeding.
unfoldable pub pass : List FastAdd → (ℕ → ℕ) → List FastAdd × (ℕ → ℕ)
unfolding pass_entry
pass [] mem = ([], mem)
pass (e ∷ es) mem =
    let (e', mem') = pass_entry e mem in let (es', mem'') = pass es mem' in (e' ∷ es', mem'')

abbrev pub is_listed : ℕ → List FastAdd → Bool
is_listed value [] = false
is_listed value (e ∷ es) = (value == e.value) || is_listed value es

-- The last entry, and the list without it.
abbrev pub last_entry : FastAdd → List FastAdd → FastAdd
last_entry e [] = e
last_entry e (e' ∷ es) = last_entry e' es

abbrev pub but_last : FastAdd → List FastAdd → List FastAdd
but_last e [] = []
but_last e (e' ∷ es) = e ∷ but_last e' es

-- The loop of fastProcessStop: the last entry takes the place of the one that is found.
unfoldable pub remove : ℕ → List FastAdd → List FastAdd
remove value [] = []
remove value (e ∷ []) = if value == e.value then [] else e ∷ []
remove value (e ∷ e' ∷ es) =
    let rest = remove value (e' ∷ es) in
    if value == e.value then last_entry e' es ∷ but_last e' es else e ∷ rest

-- fastProcessStop: `taken` is whether the mutex is taken in time.
unfoldable pub stop : Bool → ℕ → List FastAdd → List FastAdd
unfolding remove
stop taken value es = if taken then remove value es else es

-- fastProcessStart. The call of fastProcessStop inside does not get the mutex that is held.
unfoldable pub start : Bool → ℕ → ℕ → ℕ → Sign → List FastAdd → List FastAdd
unfolding stop
start taken value max min sign es =
    if not (ltb (length es) fast_add_list_size)
    then es
    else if not taken
    then es
    else if is_listed value es
    then stop false value es
    else es
      ++ (record { counter = 0; delay = 0; value = value; max = max; min = min; sign = sign } ∷ [])

-- fastProcessDeInit
unfoldable pub de_init : List FastAdd → List FastAdd
de_init es = []
