-- ===== src/Registry/Refinement/Tests.antt =====
-- A run of the registry as one of its map of levels.
use webx_engine.Common.{ℕ, ◌≡◌, none, [], ◌∷◌}
use webx_engine.Common.WholeFloats.{whole_floats}
use webx_engine.Registry.{new_registry}
use webx_engine.Registry.Rounds.{disconnect_all}
use webx_engine.Registry.Steps.{run}
use webx_engine.Registry.Tests.{settings, calls_made}
use webx_engine.Registry.Refinement.{IsRun, levels}
use webx_engine.Registry.Refinement.Runs.{run-IsRun}

run-IsRun_example :
    let r = run whole_floats settings calls_made (new_registry whole_floats (5 ∷ 5 ∷ 9 ∷ 7 ∷ [])) in
    IsRun whole_floats settings calls_made (λ i. none) (levels whole_floats r)
    × ((i : ℕ) → levels whole_floats (disconnect_all whole_floats r) i ≡ none)
run-IsRun_example = run-IsRun whole_floats settings (5 ∷ 5 ∷ 9 ∷ 7 ∷ []) calls_made
