-- ===== src/Quality/Tests.antt =====
-- Levels at concrete inputs.
use webx_engine.Common.Int.{pos}
use webx_engine.Common.{true, false, ◌+◌, ◌≡◌, ◌≤◌, ◌⊎◌, min, max, arith}
use webx_engine.Common.WholeFloats.{whole_floats}
use webx_engine.Quality.{
  max_mbps_of, quality_of, set_runtime_max_quality_index, max_quality_index, max_quality,
  quality_for_index, quality_for_image_mbps,
}
use webx_engine.Quality.Bounds.{quality_for_index-bounds, quality_for_image_mbps-step}

quality_for_index-bounds_example :
    (1 ≤ set_runtime_max_quality_index (pos 40))
    × (set_runtime_max_quality_index (pos 40) ≤ max_quality_index)
    × ((max_quality (set_runtime_max_quality_index (pos 40))).index
        ≡ set_runtime_max_quality_index (pos 40))
    × ((quality_for_index (set_runtime_max_quality_index (pos 40)) 13).index
        ≡ max 1 (min 13 (set_runtime_max_quality_index (pos 40))))
quality_for_index-bounds_example = quality_for_index-bounds (pos 40) 13

-- A rate of 5 Mbps for level 6, from level 7.
quality_for_image_mbps-step_example :
    let desired = quality_of 6 600 70 70 400 in
    let i = (quality_for_image_mbps whole_floats 12 5 desired (quality_of 7 800 70 80 500)).index in
    (1 ≤ i)
    × (i ≤ 12)
    × (i ≤ 7 + 1)
    × (((i + 1 ≡ 7) × (whole_floats.flt_ltb (max_mbps_of whole_floats desired) 5 ≡ true))
        ⊎ ((7 ≤ i)
            × ((whole_floats.flt_ltb (max_mbps_of whole_floats desired) 5 ≡ false) ⊎ (7 ≤ 1))))
quality_for_image_mbps-step_example =
    quality_for_image_mbps-step whole_floats 12 5 (quality_of 6 600 70 70 400)
      (quality_of 7 800 70 80 500) (omega arith) (omega arith) (omega arith)
