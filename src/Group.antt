-- ===== src/Group.antt =====
-- src/controller/client/WebXClientGroup.h: the clients of one quality level and the mask of their indices.
-- Its windows are in the module Windows.
pub mod Windows
pub mod Kept
pub mod Views
pub mod Shown
pub mod Updates
pub mod Tests
pub mod Members
pub mod Placing
use Prim.Native.Nat.{bit_or, bit_and}
use webx_engine.Common.{
  ℕ, Bool, true, false, List, [], ◌∷◌, ◌++◌, Option, none, some, if◌then◌else◌,
}
use webx_engine.Common.Bits.{bit_not}
use webx_engine.Common.Floats.{Floats}
use webx_engine.Bitrate.{DataPoint, has_value}
use webx_engine.Quality.{Quality, same_quality}
use webx_engine.Roster.{Member, find, remove}
use webx_engine.Window.{ClientWindow}

abbrev pub is_nil {ℓ} : {A : Type ℓ} → List A → Bool
is_nil [] = true
is_nil (_ ∷ _) = false

module _ (fl : Floats) where
  open fl use {Float}

  pub record Group : Type 0 where
    pub quality : Quality
    pub client_index_mask : ℕ
    pub clients : List Member
    pub windows : List (ClientWindow fl)
    pub transfer_data_points : List (DataPoint fl)
    pub average_image_mbps : Option Float

  -- The constructor.
  unfoldable pub new_group : Quality → Group
  new_group quality = record {
    quality = quality;
    client_index_mask = 0;
    clients = [];
    windows = [];
    transfer_data_points = [];
    average_image_mbps = none;
  }

  -- `getClientById(id) != nullptr`
  abbrev pub contains : ℕ → Group → Bool
  contains i g = has_value (find i g.clients)

  -- `addClient`, without the reset of the client's bitrate data.
  unfoldable pub add_client : Member → Group → Group
  add_client m g = if contains m.id g then g else record g {
    client_index_mask = bit_or g.client_index_mask m.index;
    clients = g.clients ++ m ∷ [];
  }

  -- `removeClient`
  pub remove_client : ℕ → Group → Group
  remove_client i g = elim (find i g.clients) [
    | none ↦ g
    | some m ↦ record g {
      client_index_mask = bit_and g.client_index_mask (bit_not m.index);
      clients = remove i g.clients;
    }
  ]

  -- `hasClients`, which is true of a group with no client.
  abbrev pub has_clients : Group → Bool
  has_clients g = is_nil g.clients

  -- WebXClientRegistry::getGroupWithClientId
  pub group_with : ℕ → List Group → Option Group
  group_with i [] = none
  group_with i (g ∷ gs) = if contains i g then some g else group_with i gs

  -- WebXClientRegistry::removeClientFromGroup of the first group with the client: the group goes if it
  -- is empty then.
  pub remove_from_groups : ℕ → List Group → List Group
  unfolding remove_client
  remove_from_groups i [] = []
  remove_from_groups i (g ∷ gs) =
      let g' = remove_client i g in
      if contains i g then (if has_clients g' then gs else g' ∷ gs) else g ∷ remove_from_groups i gs

  -- WebXClientRegistry::getOrCreateGroupByQuality, and `addClient` to that group.
  unfoldable pub add_to_groups : Quality → Member → List Group → List Group
  unfolding add_client new_group
  add_to_groups q m [] = add_client m (new_group q) ∷ []
  add_to_groups q m (g ∷ gs) =
      if same_quality g.quality q then add_client m g ∷ gs else g ∷ add_to_groups q m gs

  -- What `addClient` resets the client's bitrate data with: the average of the group that it joins, and
  -- nothing if it is in that group already.
  unfoldable pub joined_average : Quality → ℕ → List Group → Option (Option Float)
  joined_average q i [] = some none
  joined_average q i (g ∷ gs) =
      if same_quality g.quality q
      then (if contains i g then none else some g.average_image_mbps)
      else joined_average q i gs
