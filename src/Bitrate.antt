-- ===== src/Bitrate.antt =====
-- src/controller/client/WebXClientBitrateCalculator.h. `now` is the reading of the clock in a call, in
-- nanoseconds; the limits of the program are in milliseconds.
pub mod Paired
pub mod Tests
use webx_engine.Common.{
  ℕ, ◌+◌, ◌-◌, ◌*◌, ◌%◌, ◌^◌, Bool, true, false, ◌&&◌, List, [], ◌∷◌, ◌++◌, Option, none, some,
  length, ltb, if◌then◌else◌, remove_if,
}
use webx_engine.Common.Floats.{Floats}

abbrev pub has_value {ℓ} : {A : Type ℓ} → Option A → Bool
has_value none = false
has_value (some _) = true

abbrev pub ms : ℕ
ms = 1_000_000

-- `now - time` in a test against a number of milliseconds.
abbrev pub older_than : ℕ → ℕ → ℕ → Bool
older_than limit_ms now time = ltb (limit_ms * ms) (now - time)

abbrev pub bitrate_data_retention_time_ms : ℕ
bitrate_data_retention_time_ms = 4000

abbrev pub time_for_valid_bitrate_calculation : ℕ
time_for_valid_bitrate_calculation = 2000

abbrev pub latency_data_retention_time_ms : ℕ
latency_data_retention_time_ms = 10000

module _ (fl : Floats) where
  open fl use {Float, of_ℕ, decimal, add, sub, mul, div, sqrt, to_u64}

  -- `WebXClientBitrateData` and `WebXClientLatencyData`: a value and when it was recorded.
  pub record DataPoint : Type 0 where
    pub value : Float
    pub timestamp : ℕ

  pub record BitrateCalculator : Type 0 where
    pub bitrate_data_points : List DataPoint
    pub latency_data_points : List DataPoint
    pub mean_bitrate_mbps : Option Float
    pub mean_bitrate_ratio : Option Float
    pub current_group_image_mbps : Option Float
    pub mean_rtt_latency_ms : Option Float
    pub sd_rtt_latency_ms : Option Float

  -- `WebXOptional::value`. An empty one throws there, and is 0 here.
  abbrev pub value : Option Float → Float
  value none = of_ℕ 0
  value (some x) = x

  -- The constructor.
  pub new_calculator : BitrateCalculator
  new_calculator = record {
    bitrate_data_points = [];
    latency_data_points = [];
    mean_bitrate_mbps = none;
    mean_bitrate_ratio = none;
    current_group_image_mbps = none;
    mean_rtt_latency_ms = none;
    sd_rtt_latency_ms = none;
  }

  -- `std::accumulate` from `0.0f`.
  pub accumulate : (Float → Float → Float) → Float → List DataPoint → Float
  accumulate f acc [] = acc
  accumulate f acc (p ∷ ps) = accumulate f (f acc p.value) ps

  pub mean_of : List DataPoint → Float
  unfolding accumulate
  mean_of ps = div (accumulate add (of_ℕ 0) ps) (of_ℕ (length ps))

  -- `calculateRTTLatencyStats`
  pub calculate_rtt_latency_stats : ℕ → BitrateCalculator → BitrateCalculator
  unfolding mean_of
  calculate_rtt_latency_stats now c =
      let ps =
        remove_if (λ p. older_than latency_data_retention_time_ms now p.timestamp)
          c.latency_data_points in
      let mean = mean_of ps in
      let square_diff = λ (sum x : Float). add sum (mul (sub x mean) (sub x mean)) in
      let sum_squared_diffs = accumulate square_diff (of_ℕ 0) ps in
      if ltb 0 (length ps)
      then record c {
        latency_data_points = ps;
        mean_rtt_latency_ms = some mean;
        sd_rtt_latency_ms = some (sqrt (div sum_squared_diffs (of_ℕ (length ps))));
      }
      else record c {
        latency_data_points = ps;
        mean_rtt_latency_ms = none;
        sd_rtt_latency_ms = none;
      }

  -- `updateLatency`: the difference of the two `uint64_t` times wraps.
  pub update_latency : ℕ → ℕ → ℕ → BitrateCalculator → BitrateCalculator
  unfolding calculate_rtt_latency_stats
  update_latency now send_timestamp_ms recv_timestamp_ms c =
      let rtt_latency_ms = of_ℕ ((recv_timestamp_ms + 2 ^ 64 - send_timestamp_ms) % 2 ^ 64) in
      calculate_rtt_latency_stats now (record c {
        latency_data_points =
            c.latency_data_points ++ record { value = rtt_latency_ms; timestamp = now } ∷ [];
      })

  -- The mean of the points kept, and its ratio to the group's image rate if that is known.
  abbrev ratio_to_group : Option Float → Float → Option Float
  ratio_to_group none mean = none
  ratio_to_group (some image_mbps) mean = some (div image_mbps mean)

  abbrev pub first_timestamp : List DataPoint → ℕ
  first_timestamp [] = 0
  first_timestamp (p ∷ ps) = p.timestamp

  -- `calculateAverageBitrateData`. With one point or none the ratio is left as it was.
  pub calculate_average_bitrate_data : ℕ → BitrateCalculator → BitrateCalculator
  unfolding mean_of
  calculate_average_bitrate_data now c =
      let ps =
        remove_if (λ p. older_than bitrate_data_retention_time_ms now p.timestamp)
          c.bitrate_data_points in
      let mean = mean_of ps in
      if ltb 1 (length ps)
      then (if older_than time_for_valid_bitrate_calculation now (first_timestamp ps)
          then record c {
            bitrate_data_points = ps;
            mean_bitrate_mbps = some mean;
            mean_bitrate_ratio = ratio_to_group c.current_group_image_mbps mean;
          }
          else record c {
            bitrate_data_points = ps;
            mean_bitrate_mbps = none;
            mean_bitrate_ratio = none;
          })
      else record c { bitrate_data_points = ps; mean_bitrate_mbps = none }

  -- `updateBitrateData`: the adjusted time of receipt and the transfer time wrap at 64 and 32 bits.
  pub update_bitrate_data : ℕ → ℕ → ℕ → ℕ → BitrateCalculator → BitrateCalculator
  unfolding calculate_average_bitrate_data
  update_bitrate_data now send_timestamp_ms recv_timestamp_ms data_length c =
      let adjustment = to_u64 (sub (value c.mean_rtt_latency_ms) (value c.sd_rtt_latency_ms)) in
      let adjusted = (recv_timestamp_ms + 2 ^ 64 - adjustment % 2 ^ 64) % 2 ^ 64 in
      let transfer_time_ms = (adjusted - send_timestamp_ms) % 2 ^ 32 in
      let bitrate_mbps =
        div (mul (decimal 762939 100_000_000) (of_ℕ data_length)) (of_ℕ transfer_time_ms) in
      let points = c.bitrate_data_points ++ record { value = bitrate_mbps; timestamp = now } ∷ [] in
      calculate_average_bitrate_data now (
        if has_value c.mean_rtt_latency_ms && ltb send_timestamp_ms adjusted
        then record c { bitrate_data_points = points }
        else c)

  -- `resetBitrateData`
  pub reset_bitrate_data : Option Float → BitrateCalculator → BitrateCalculator
  reset_bitrate_data current_group_image_mbps c = record c {
    bitrate_data_points = [];
    mean_bitrate_mbps = none;
    mean_bitrate_ratio = none;
    current_group_image_mbps = current_group_image_mbps;
  }

  -- `setCurrentGroupImageMbps`
  pub set_current_group_image_mbps : Option Float → BitrateCalculator → BitrateCalculator
  set_current_group_image_mbps current_group_image_mbps c = record c {
    current_group_image_mbps = current_group_image_mbps;
  }
