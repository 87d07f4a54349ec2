-- ===== src/Registry/Steps.antt =====
-- src/controller/client/WebXClientRegistry.h: the calls of the registry as steps.
use webx_engine.Common.{ℕ, List, [], ◌∷◌, Option, none, some, Result}
use webx_engine.Common.Floats.{Floats}
use webx_engine.Message.{Version}
use webx_engine.Quality.{Quality}
use webx_engine.Registry.{
  Settings, Registry, RegistryError, add_client, remove_client, set_client_max_quality, on_pong,
  on_data_ack,
}
use webx_engine.Damage.{WindowDamage}
use webx_engine.Window.{Visibility}
use webx_engine.Group.Windows.{UpdateHandler}
use webx_engine.Registry.Windows.{add_window_damage, show_visible, handle_updates}
use webx_engine.Registry.Rounds.{handle_client_pings, verify_quality}

module _ (fl : Floats) where
  -- The calls of the registry that change its clients or groups, with their arguments, but for
  -- `disconnectAll`, which the controller makes when it stops and which Registry/Rounds has.
  pub data Call : Type 0 where
    adds : Version → Call
    removes : ℕ → Call
    sets_max_quality : ℕ → Quality → Call
    pongs : ℕ → ℕ → ℕ → Call
    acks : ℕ → ℕ → ℕ → ℕ → Call
    handles_pings : Call
    damages : WindowDamage → Call
    shows : List (Visibility fl) → Call
    updates : UpdateHandler fl → Call
    verifies_quality : Call

  -- The registry after a call at a time. A call of `addClient` that draws no free identifier from the
  -- numbers given has not returned, and leaves it as it was.
  abbrev pub after_add :
      Registry fl → Option (Result RegistryError (ℕ × ℕ) × Registry fl) → Registry fl
  after_add r none = r
  after_add r (some (_, r')) = r'

  unfoldable pub step : Settings → ℕ → Call → Registry fl → Registry fl
  step settings now (adds version) r = after_add r (add_client fl settings now version r)
  step settings now (removes i) r = (remove_client fl i r).1
  step settings now (sets_max_quality i q) r = set_client_max_quality fl i q r
  step settings now (pongs i sent_ms recv_ms) r = on_pong fl now i sent_ms recv_ms r
  step settings now (acks i sent_ms recv_ms n) r = on_data_ack fl now i sent_ms recv_ms n r
  step settings now (damages damage) r = add_window_damage fl settings now damage r
  step settings now (shows vs) r = show_visible fl settings now vs r
  step settings now (updates handler) r = handle_updates fl settings now handler r
  step settings now handles_pings r = handle_client_pings fl now r
  step settings now verifies_quality r = verify_quality fl settings now r

  unfoldable pub run : Settings → List (ℕ × Call) → Registry fl → Registry fl
  unfolding step
  run settings [] r = r
  run settings ((now, call) ∷ calls) r = run settings calls (step settings now call r)
