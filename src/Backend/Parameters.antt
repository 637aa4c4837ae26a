-- ===== src/Backend/Parameters.antt =====
-- backend/parameters.c: the table of parameters, their values, and the copy of them in flash.
-- `project` is PARAMETERS_U32_LIST, which each product's own project_parameters.h gives.
-- The loops count with a uint8_t, so a table has fewer than 256 entries. The members `user_data`
-- and `cb` of parameter_t, which nothing reads, are left out.
pub mod Values
pub mod Boot
pub mod Strings
mod Tests
use Prim.Native.String.{String}
use hq_components.Prelude.{
  ℕ, suc, ◌+◌, ◌*◌, Bool, true, false, ◌||◌, not, ◌&&◌, List, [], ◌∷◌, ◌++◌, map, Option, none,
  some, length, get_or, set, replicate, write_at, ltb, leb, ◌==◌, if◌then◌else◌,
}

-- parameter_t
pub record Parameter : Type 0 where
  pub min_value : ℕ
  pub max_value : ℕ
  pub default_value : ℕ
  pub name : String

-- The entries that parameters.c adds behind those of the project.
abbrev pub builtin : List Parameter
builtin =
    record { min_value = 0; max_value = 1; default_value = 1; name = "boot_up" }
    ∷ record { min_value = 0; max_value = 1; default_value = 0; name = "emergency_disable" }
    ∷ record { min_value = 5; max_value = 100; default_value = 30; name = "power_on_minutes" }
    ∷ record { min_value = 0; max_value = 1; default_value = 1; name = "buzzer" }
    ∷ record { min_value = 0; max_value = 10; default_value = 10; name = "brightness" }
    ∷ []

-- What a read behind the table would meet; every read is guarded.
abbrev pub no_parameter : Parameter
no_parameter = record { min_value = 0; max_value = 0; default_value = 0; name = "" }

abbrev pub parse_cmd_max_string_len : ℕ
parse_cmd_max_string_len = 48

-- STR_SIZE
abbrev pub str_size : ℕ
str_size = 49

-- PARAM_STR_LAST_VALUE
abbrev pub str_last_value : ℕ
str_last_value = 1

-- `parameters_value` and `parameters_string`.
pub record Store : Type 0 where
  pub values : List ℕ
  pub strings : List (List ℕ)

-- The text in a char array: the bytes before the first 0.
unfoldable pub c_string : List ℕ → List ℕ
c_string [] = []
c_string (c ∷ cs) = if c == 0 then [] else c ∷ c_string cs

-- What the flash driver answers to the three calls of _read_parameters.
pub data Query : Type 0 where
  found not_found failed : Query

pub record NvsRead : Type 0 where
  pub opens : Bool  -- nvs_open gives ESP_OK
  pub query : Query  -- the first nvs_get_blob
  pub required_size : ℕ  -- and the size that it reports
  pub blob : List ℕ → List ℕ  -- what the second nvs_get_blob makes of the array

-- Which calls of parameters_save give ESP_OK.
pub record NvsWrite : Type 0 where
  pub opens : Bool
  pub sets : Bool
  pub commits : Bool

-- parameters_save: the result, and the values that have reached the flash.
unfoldable pub save : NvsWrite → Store → Bool × Option (List ℕ)
save w s =
    if not w.opens
    then (false, none)
    else if not w.sets
    then (false, none)
    else if not w.commits
    then (false, none)
    else (true, some s.values)

-- What memset and strcpy leave in one string: the text, its 0, and zeros.
unfoldable pub text_buffer : List ℕ → List ℕ
text_buffer text = write_at (replicate str_size 0) 0 (text ++ (0 ∷ []))

-- parameters_setString. A text that is refused changes nothing.
unfoldable pub set_string : ℕ → List ℕ → Store → Bool × Store
unfolding text_buffer
set_string val str s =
    let text = c_string str in
    if leb str_last_value val || leb parse_cmd_max_string_len (length text)
    then (false, s)
    else (true, record s { strings = set s.strings val (text_buffer text) })

-- parameters_getString into a buffer of `str_len` bytes: `none` is the result false, and the
-- bytes of `some` are what strcpy writes, its closing 0 left out.
unfoldable pub get_string : ℕ → ℕ → Store → Option (List ℕ)
get_string val str_len s =
    let text = c_string (get_or s.strings val []) in
    if leb str_last_value val || leb str_len (length text) then none else some text

-- parameters_getStringName
unfoldable pub get_string_name : ℕ → Option String
get_string_name val = if leb str_last_value val then none else some "sn"

module _ (project : List Parameter) where
  -- `parameters`
  abbrev pub table : List Parameter
  table = project ++ builtin

  -- PARAM_LAST_VALUE
  abbrev pub last_value : ℕ
  last_value = length table

  -- The static arrays, which C starts at 0.
  abbrev pub zeroed : Store
  zeroed = record {
    values = replicate last_value 0;
    strings = replicate str_last_value (replicate str_size 0);
  }

  unfoldable pub get_name : ℕ → Option String
  get_name val = if leb last_value val then none else some (get_or table val no_parameter).name

  unfoldable pub get_value : ℕ → Store → ℕ
  get_value val s = if leb last_value val then 0 else get_or s.values val 0

  unfoldable pub get_max_value : ℕ → ℕ
  get_max_value val = if leb last_value val then 0 else (get_or table val no_parameter).max_value

  unfoldable pub get_min_value : ℕ → ℕ
  get_min_value val = if leb last_value val then 0 else (get_or table val no_parameter).min_value

  unfoldable pub get_default_value : ℕ → ℕ
  get_default_value val =
      if leb last_value val then 0 else (get_or table val no_parameter).default_value

  unfoldable pub set_value : ℕ → ℕ → Store → Bool × Store
  set_value val value s =
      if leb last_value val
      then (false, s)
      else if ltb (get_or table val no_parameter).max_value value
      then (false, s)
      else (true, record s { values = set s.values val value })

  -- parameters_setDefaultValues
  unfoldable pub set_default_values : Store → Store
  set_default_values s = record s { values = map (λ p. p.default_value) table }

  -- The loop of _check_values at index `i`, over the values that are left.
  unfoldable pub check_from : ℕ → List ℕ → Bool
  check_from i [] = true
  check_from i (v ∷ vs) =
      let rest = check_from (i + 1) vs in
      if ltb (get_max_value i) v || ltb v (get_min_value i) then false else rest

  -- _check_values
  unfoldable pub check_values : Store → Bool
  check_values s = check_from 0 s.values

  -- _read_parameters. The error of the second nvs_get_blob is not looked at.
  unfoldable pub read_parameters : NvsRead → Store → Bool × Store
  read_parameters r s = if not r.opens then (false, s) else elim r.query [
    | failed ↦ (false, s)
    | _ ↦
        if r.required_size == 4 * last_value
        then (true, record s { values = r.blob s.values })
        else (false, s)
  ]

  -- parameters_init: the new store, and what is written to the flash on the way.
  unfoldable pub init : NvsRead → NvsWrite → Store → Store × Option (List ℕ)
  init r w s =
      let (ret_val, read) = read_parameters r s in
      if not ret_val || not (check_values read)
      then (let t = set_default_values read in (t, (save w t).1))
      else (read, none)
