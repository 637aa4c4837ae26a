-- ===== src/Drv/Battery.antt =====
-- drv/battery.c: the task that measures the battery, averages the last measurements and powers the
-- device off. A round is given the readings in mV that adc_cali_raw_to_voltage yields for its 64
-- samples; `calibrated` is the answer of _adc_calibration_init. The product in the voltage is
-- exact, as for every reading below 500 V. `pin` is the level of the pin that holds the power.
pub mod Recent
pub mod Average
pub mod Cut
mod Tests
use hq_components.Prelude.{
  Bool, List, [], false, get_or, if◌then◌else◌, ltb, replicate, set, suc, true, u32, zero, ℕ, ◌%◌,
  ◌*◌, ◌+◌, ◌/◌, ◌∷◌,
}
use hq_components.Drv.PowerOn.{Ctx, disable_system_now}

-- ADC_BUFFOR_SIZE
abbrev pub buffer_size : ℕ
buffer_size = 32

-- CRITICAL_VOLTAGE
abbrev pub critical_voltage : ℕ
critical_voltage = 3000

-- The static variables.
pub record Battery : Type 0 where
  pub voltage : ℕ
  pub voltage_sum : ℕ
  pub voltage_average : ℕ
  pub voltage_table : List ℕ
  pub voltage_measure_cnt : ℕ
  pub voltage_table_size : ℕ
  pub voltage_is_measured : Bool

abbrev pub started : Battery
started = record {
  voltage = 0;
  voltage_sum = 0;
  voltage_average = 0;
  voltage_table = replicate buffer_size 0;
  voltage_measure_cnt = 0;
  voltage_table_size = 0;
  voltage_is_measured = false;
}

-- The loop over the samples: what it leaves in voltage_meas.
unfoldable pub multisample : Bool → List ℕ → ℕ → ℕ
multisample calibrated [] meas = meas
multisample calibrated (sample ∷ samples) meas =
    multisample calibrated samples (if calibrated then sample else meas)

-- The voltage of a round.
unfoldable pub measured : Bool → List ℕ → ℕ
measured calibrated samples = 4200 * multisample calibrated samples 0 / 2000

-- The loop that sums up the table, with the number of its rounds.
unfoldable pub sum_loop : List ℕ → ℕ → ℕ → ℕ → ℕ
sum_loop table zero i sum = sum
sum_loop table (suc n) i sum = sum_loop table n (i + 1) (u32 (sum + get_or table i 0))

-- The buffer and the average of a round.
unfoldable pub record_voltage : ℕ → Battery → Battery
record_voltage v b =
    let table = set b.voltage_table (b.voltage_measure_cnt % buffer_size) v in
    let size =
      if ltb b.voltage_table_size buffer_size
      then b.voltage_table_size + 1
      else b.voltage_table_size in
    let sum = sum_loop table size 0 0 in
    record {
      voltage = v;
      voltage_sum = sum;
      voltage_average = sum / size;
      voltage_table = table;
      voltage_measure_cnt = u32 (b.voltage_measure_cnt + 1);
      voltage_table_size = size;
      voltage_is_measured = true;
    }

-- One round of adc_task.
unfoldable pub step : Bool → List ℕ → Battery × Ctx → Battery × Ctx
unfolding measured
step calibrated samples (b, c) =
    let v = measured calibrated samples in
    (record_voltage v b, if ltb v critical_voltage then disable_system_now c else c)

unfoldable pub run : Bool → List (List ℕ) → Battery × Ctx → Battery × Ctx
unfolding step
run calibrated [] s = s
run calibrated (r ∷ rs) s = run calibrated rs (step calibrated r s)
