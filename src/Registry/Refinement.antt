-- ===== src/Registry/Refinement.antt =====
-- The registry as a map from the identifiers of its clients to their quality levels, and what each call
-- may do to that map.
pub mod Steps
pub mod Runs
pub mod Tests
use webx_engine.Common.{
  ℕ, ◌≡◌, Bool, true, false, List, [], ◌∷◌, Option, none, some, ◌==◌, ◌||◌, if◌then◌else◌,
}
use webx_engine.Common.Floats.{Floats}
use webx_engine.Message.{Version}
use webx_engine.Quality.{Quality, max_quality}
use webx_engine.Roster.{Member}
use webx_engine.Group.Views.{level}
use webx_engine.Registry.{Registry, Settings}
use webx_engine.Registry.Steps.{
  Call, adds, removes, sets_max_quality, pongs, acks, handles_pings, verifies_quality, damages,
  shows, updates,
}

abbrev pub Levels : Type 0
Levels = ℕ → Option ℕ

abbrev pub insert : ℕ → ℕ → Levels → Levels
insert i l σ j = if j == i then some l else σ j

abbrev pub delete : ℕ → Levels → Levels
delete i σ j = if j == i then none else σ j

abbrev pub is_among : ℕ → List Member → Bool
is_among j [] = false
is_among j (m ∷ ms) = j == m.id || is_among j ms

abbrev pub delete_all : List Member → Levels → Levels
delete_all ms σ j = if is_among j ms then none else σ j

-- The map that a registry stands for.
abbrev pub levels : (fl : Floats) → Registry fl → Levels
levels fl r j = level fl j r.groups

-- Any number of clients that there are move to other levels.
pub data IsMoved : Levels → Levels → Type 0 where
  stays : {σ τ : Levels} → ((j : ℕ) → τ j ≡ σ j) → IsMoved σ τ
  moves :
      {σ ρ τ : Levels} (i l l' : ℕ)
      → σ i ≡ some l
      → ((j : ℕ) → ρ j ≡ insert i l' σ j)
      → IsMoved ρ τ
      → IsMoved σ τ

module _ (fl : Floats) (settings : Settings) where
  -- The calls that concern no group's clients.
  abbrev pub is_quiet : Call fl → Bool
  is_quiet (pongs _ _ _) = true
  is_quiet (acks _ _ _ _) = true
  is_quiet (damages _) = true
  is_quiet (shows _) = true
  is_quiet (updates _) = true
  is_quiet _ = false

  -- What a call may do: one client joins at the greatest level or none does; one leaves; one that is
  -- there moves to the level asked for; those that have timed out leave; or clients that are there move.
  pub data IsChange : Call fl → Levels → Levels → Type 0 where
    joins :
        {σ τ : Levels} (version : Version) (i : ℕ)
        → σ i ≡ none
        → ((j : ℕ)
            → τ j ≡ insert i (max_quality settings.quality.max_runtime_quality_index).index σ j)
        → IsChange (adds version) σ τ
    refuses :
        {σ τ : Levels} (version : Version) → ((j : ℕ) → τ j ≡ σ j) → IsChange (adds version) σ τ
    leaves : {σ τ : Levels} (i : ℕ) → ((j : ℕ) → τ j ≡ delete i σ j) → IsChange (removes i) σ τ
    levels_to :
        {σ τ : Levels} (i l : ℕ) (q : Quality)
        → σ i ≡ some l
        → ((j : ℕ) → τ j ≡ insert i q.index σ j)
        → IsChange (sets_max_quality i q) σ τ
    ignores :
        {σ τ : Levels} (i : ℕ) (q : Quality)
        → σ i ≡ none
        → ((j : ℕ) → τ j ≡ σ j)
        → IsChange (sets_max_quality i q) σ τ
    time_out :
        {σ τ : Levels} (ms : List Member)
        → ((j : ℕ) → τ j ≡ delete_all ms σ j)
        → IsChange handles_pings σ τ
    adjusts : {σ τ : Levels} → IsMoved σ τ → IsChange verifies_quality σ τ
    rests :
        {σ τ : Levels} (call : Call fl)
        → is_quiet call ≡ true
        → ((j : ℕ) → τ j ≡ σ j)
        → IsChange call σ τ

  pub data IsRun : List (ℕ × Call fl) → Levels → Levels → Type 0 where
    done : {σ τ : Levels} → ((j : ℕ) → τ j ≡ σ j) → IsRun [] σ τ
    then_run :
        {σ ρ τ : Levels} (now : ℕ) (call : Call fl) (calls : List (ℕ × Call fl))
        → IsChange call σ ρ
        → IsRun calls ρ τ
        → IsRun ((now, call) ∷ calls) σ τ
