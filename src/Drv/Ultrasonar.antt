-- ===== src/Drv/Ultrasonar.antt =====
-- drv/ultrasonar.c: the distance sensor on a serial line.
-- A frame is 0xFF and a distance of two bytes, the high one first. The bytes that are not 0xFF, and
-- a frame that is cut off or says more than 3100, are passed over.
pub mod Frames
pub mod Bounds
pub mod Silence
mod Tests
use hq_components.Prelude.{
  Bool, List, [], false, if◌then◌else◌, ltb, replicate, set, suc, true, u32, u8, zero, ℕ, ◌%◌, ◌*◌,
  ◌+◌, ◌/◌, ◌==◌, ◌∷◌,
}

abbrev pub table_size : ℕ
table_size = 32

-- The static variables of the driver.
pub record Sonar : Type 0 where
  pub distance : ℕ
  pub filtered_tab : List ℕ
  pub tab_iterator : ℕ
  pub silos_is_connected : Bool
  pub bad_read_data_count : ℕ

-- The static variables before ultrasonar_start.
abbrev pub power_up : Sonar
power_up = record {
  distance = 0;
  filtered_tab = replicate 32 0;
  tab_iterator = 0;
  silos_is_connected = false;
  bad_read_data_count = 0;
}

-- The loop over the table: `distance += filtered_tab[j]`.
unfoldable pub add_all : ℕ → List ℕ → ℕ
add_all d [] = d
add_all d (v ∷ vs) = add_all (u32 (d + v)) vs

-- What sonar_task does with a distance that it has read.
unfoldable pub reading : ℕ → Sonar → Sonar
unfolding add_all
reading v s =
    let tab = set s.filtered_tab (s.tab_iterator % table_size) v in
    record s {
      filtered_tab = tab;
      tab_iterator = u32 (s.tab_iterator + 1);
      distance = add_all s.distance tab / table_size;
    }

-- One round of the loop over the bytes: how many of the next bytes are passed over, whether a
-- distance has been read by now, and the state.
unfoldable pub at_byte : ℕ → List ℕ → Bool → Sonar → ℕ × Bool × Sonar
unfolding reading
at_byte b (high ∷ low ∷ bs) is_correct s =
    let read_data = high * 256 + low in
    if b == 255
    then (if ltb 3100 read_data then (0, is_correct, s) else (2, true, reading read_data s))
    else (0, is_correct, s)
at_byte b (last ∷ []) is_correct s = (0, is_correct, s)
at_byte b [] is_correct s = (0, is_correct, s)

-- The loop over the bytes of one read; `skip` of them are passed over first.
unfoldable pub scan : List ℕ → ℕ → Bool → Sonar → Bool × Sonar
unfolding at_byte
scan [] skip is_correct s = (is_correct, s)
scan (b ∷ bs) (suc skip) is_correct s = scan bs skip is_correct s
scan (b ∷ bs) zero is_correct s =
    let (skip, is_correct, next) = at_byte b bs is_correct s in scan bs skip is_correct next

-- One round of sonar_task, on the bytes that uart_read_bytes gives.
unfoldable pub round : List ℕ → Sonar → Sonar
unfolding scan
round bytes s =
    let (is_correct, read) = scan bytes 0 false s in
    if is_correct
    then record read { silos_is_connected = true; bad_read_data_count = 0 }
    else record read {
      silos_is_connected =
          if ltb 5 read.bad_read_data_count then false else read.silos_is_connected;
      bad_read_data_count = u8 (read.bad_read_data_count + 1);
    }

-- The rounds of sonar_task.
unfoldable pub rounds : List (List ℕ) → Sonar → Sonar
unfolding round
rounds [] s = s
rounds (bytes ∷ reads) s = rounds reads (round bytes s)

-- ultrasonar_is_connected
abbrev pub is_connected : Sonar → Bool
is_connected s = s.silos_is_connected

-- ultrasonar_get_distance
abbrev pub get_distance : Sonar → ℕ
get_distance s = s.distance
