-- ===== src/OledUi/MenuDrv/Stack.antt =====
-- The table of entered menus is a stack.
use hq_components.Prelude.{
  List, Option, [], ap, arith, length, length-append, lt→ltb, none, refl, replicate, set, some, suc,
  zero, ℕ, ◌++◌, ◌+◌, ◌-◌, ◌<◌, ◌∙◌, ◌∷◌, ◌≡◌,
}
use hq_components.OledUi.MenuDrv.{
  Tab, last_from, last_tab_element, len_from, tab_len, add_menu_tab, remove_last_menu_tab,
}

-- The table of `n` places that holds these menus, the main menu first.
abbrev pub table : ℕ → List ℕ → Tab
table n [] = replicate n none
table n (m ∷ ms) = some m ∷ table (n - 1) ms

-- The menu on the top of the stack.
abbrev pub top : List ℕ → Option ℕ
top [] = none
top (m ∷ []) = some m
top (m ∷ m' ∷ ms) = top (m' ∷ ms)

len_from-table : (i n : ℕ) (ms : List ℕ) → length ms < n → len_from i (table n ms) ≡ i + length ms
len_from-table i zero ms h = absurd (omega arith)
len_from-table i (suc n) [] h = omega arith
len_from-table i (suc n) (m ∷ ms) h =
    let e : suc n - 1 ≡ n = omega arith in
    let ih = len_from-table (i + 1) n ms (omega arith) in rw e (omega (arith, ih))

set-table :
    (n : ℕ) (ms : List ℕ) (m : ℕ)
    → length ms < n
    → set (table n ms) (length ms) (some m) ≡ table n (ms ++ (m ∷ []))
set-table zero ms m h = absurd (omega arith)
set-table (suc n) [] m h = let e : suc n - 1 ≡ n = omega arith in rw e refl
set-table (suc n) (m' ∷ ms) m h =
    let e : suc n - 1 ≡ n = omega arith in
    rw e (ap (◌∷◌ (some m')) (set-table n ms m (omega arith)))

unset-table :
    (n : ℕ) (ms : List ℕ) (m : ℕ)
    → length ms < n
    → set (table n (ms ++ (m ∷ []))) (length ms) none ≡ table n ms
unset-table zero ms m h = absurd (omega arith)
unset-table (suc n) [] m h = let e : suc n - 1 ≡ n = omega arith in rw e refl
unset-table (suc n) (m' ∷ ms) m h =
    let e : suc n - 1 ≡ n = omega arith in
    rw e (ap (◌∷◌ (some m')) (unset-table n ms m (omega arith)))

last_from-table :
    (n : ℕ) (ms : List ℕ) (m : ℕ) → length ms < n → last_from (some m) (table n ms) ≡ top (m ∷ ms)
last_from-table zero ms m h = absurd (omega arith)
last_from-table (suc n) [] m h = refl
last_from-table (suc n) (m' ∷ ms) m h =
    let e : suc n - 1 ≡ n = omega arith in rw e (last_from-table n ms m' (omega arith))

last_from-full :
    (n : ℕ) (ms : List ℕ) (prev : Option ℕ) → length ms ≡ n → last_from prev (table n ms) ≡ none
last_from-full zero [] prev h = refl
last_from-full zero (m ∷ ms) prev h = absurd (omega arith)
last_from-full (suc n) [] prev h = absurd (omega arith)
last_from-full (suc n) (m ∷ ms) prev h =
    let e : suc n - 1 ≡ n = omega arith in rw e (last_from-full n ms (some m) (omega arith))

pub last_tab_element-top : (ms : List ℕ) → length ms < 8 → last_tab_element (table 8 ms) ≡ top ms
unfolding last_tab_element
last_tab_element-top [] h = refl
last_tab_element-top (m ∷ ms) h = last_from-table 7 ms m (omega arith)

pub last_tab_element-full : (ms : List ℕ) → length ms ≡ 8 → last_tab_element (table 8 ms) ≡ none
unfolding last_tab_element
last_tab_element-full [] h = absurd (omega arith)
last_tab_element-full (m ∷ ms) h = last_from-full 7 ms (some m) (omega arith)

pub add_menu_tab-table :
    (ms : List ℕ) (m : ℕ) → length ms < 8 → add_menu_tab m (table 8 ms) ≡ table 8 (ms ++ (m ∷ []))
unfolding add_menu_tab tab_len
add_menu_tab-table ms m h =
    let len : len_from 0 (table 8 ms) ≡ length ms = omega (arith, len_from-table 0 8 ms h) in
    rw len (set-table 8 ms m h)

pub remove_last-table :
    (ms : List ℕ) (m : ℕ)
    → 0 < length ms
    → length ms < 7
    → remove_last_menu_tab (table 8 (ms ++ (m ∷ []))) ≡ table 8 ms
unfolding remove_last_menu_tab tab_len
remove_last-table ms m p h =
    let l = length-append ms (m ∷ []) in
    let len : len_from 0 (table 8 (ms ++ (m ∷ []))) ≡ suc (length ms) =
      omega (arith, len_from-table 0 8 (ms ++ (m ∷ [])) (omega arith)) in
    let e : suc (length ms) - 1 ≡ length ms = omega arith in
    rw (len, lt→ltb 1 (suc (length ms)) (omega arith), e) (unset-table 8 ms m (omega arith))

pub top-append : (ms : List ℕ) (m : ℕ) → top (ms ++ (m ∷ [])) ≡ some m
top-append [] m = refl
top-append (m' ∷ []) m = refl
top-append (m' ∷ m'' ∷ ms) m = top-append (m'' ∷ ms) m

-- The table of eight places works as a stack of up to seven menus: adding a menu puts it on the
-- top, the last element is the top, and removing gives the menus from before back.
pub add_menu_tab-stack :
    (ms : List ℕ) (m : ℕ)
    → 0 < length ms
    → length ms < 7
    → let tab = add_menu_tab m (table 8 ms) in
      (last_tab_element tab ≡ some m)
      × (remove_last_menu_tab tab ≡ table 8 ms)
      × (last_tab_element (remove_last_menu_tab tab) ≡ top ms)
add_menu_tab-stack ms m p h =
    let added = add_menu_tab-table ms m (omega arith) in
    let removed : remove_last_menu_tab (add_menu_tab m (table 8 ms)) ≡ table 8 ms =
      ap remove_last_menu_tab added ∙ remove_last-table ms m p h in
    (
      ap last_tab_element added
          ∙ last_tab_element-top (ms ++ (m ∷ [])) (omega (arith, length-append ms (m ∷ [])))
          ∙ top-append ms m,
      removed,
      ap last_tab_element removed ∙ last_tab_element-top ms (omega arith),
    )
