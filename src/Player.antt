-- ===== src/Player.antt =====
-- The state of one player, as the Zone's actor holds it (server/internal/player/state.go,
-- career.go), and its view. The coin balance is an int64 that a loaded checkpoint may not have
-- below 0 and that no command takes below 0, so it is a number.
pub mod Views
pub mod Outbox
use supernova_classic_farm.Base.{
  ℕ, zero, suc, ◌+◌, ◌-◌, ◌≡◌, refl, Bool, true, false, Option, none, some, List, [], ◌∷◌, ◌++◌,
  ◌==◌, ltb, leb, ◌&&◌, ◌||◌, if◌then◌else◌, u64, Result, ok, err, max_uint64,
}
use supernova_classic_farm.Base.Sort.{sort}
use supernova_classic_farm.Base.Map.{Map, lookup, insert}
use supernova_classic_farm.Plot.{Plot, empty_plot}
use supernova_classic_farm.Wire.{ChapterStatus}
use supernova_classic_farm.Player.Outbox.{PendingOutbox}

pub record Task : Type 0 where
  pub id : ℕ
  pub current : ℕ
  pub target : ℕ

-- PlayerCareerRecord
pub record Career : Type 0 where
  pub total_harvested_crop_quantity : ℕ
  pub total_stolen_crop_quantity : ℕ

-- IdempotencyResultRecord; `B` is the type of encoded messages.
pub record IdempotencyResult (B : Type 0) : Type 0 where
  pub caller_player_id : ℕ
  pub request_id : List ℕ
  pub fingerprint_schema_version : ℕ
  pub protocol_version : ℕ
  pub action : ℕ
  pub target_player_id : ℕ
  pub payload_fingerprint_sha256 : List ℕ
  pub completed_at_ms : ℕ
  pub success : Bool
  pub result_owner_epoch : ℕ
  pub result_player_seq : ℕ
  pub response_payload_type : ℕ
  pub response_payload : B
  pub error_payload : B
  pub outbox_ids : List (List ℕ)

-- State, less the friend, mail and pet fields, which no modelled command touches.
-- `crop_compendium` is the list in the CropCompendiumRecord, if there is one.
pub record State (B : Type 0) : Type 0 where
  pub player_id : ℕ
  pub owner_epoch : ℕ
  pub player_seq : ℕ
  pub checkpoint_revision : ℕ
  pub coins : ℕ
  pub inventory : Map ℕ
  pub plots : Map Plot
  pub chapter_id : ℕ
  pub chapter_config_version : ℕ
  pub chapter : ChapterStatus
  pub chapter_activated_at_ms : ℕ
  pub tasks : List Task
  pub config_version : ℕ
  pub created_at_ms : ℕ
  pub updated_at_ms : ℕ
  pub recent_results : List (IdempotencyResult B)
  pub pending_outbox : List PendingOutbox
  pub career : Option Career
  pub crop_compendium : Option (List ℕ)

abbrev pub initial_coin_balance : ℕ
initial_coin_balance = 10

abbrev pub basic_fertilizer_id : ℕ
basic_fertilizer_id = 1

abbrev pub initial_plot_count : ℕ
initial_plot_count = 16

abbrev pub server_config_version : ℕ
server_config_version = 2

-- LocalOwnerEpoch of runtime.go
abbrev pub local_owner_epoch : ℕ
local_owner_epoch = 1

-- The plots `plot_id`, `plot_id + 1`, … of a new farm.
unfoldable pub new_initial_plots : ℕ → ℕ → Map Plot
unfolding empty_plot
new_initial_plots zero plot_id = []
new_initial_plots (suc count) plot_id =
    (plot_id, empty_plot plot_id) ∷ new_initial_plots count (plot_id + 1)

-- `NewDevelopmentState` at the time `now_ms`.
unfoldable pub new_development_state : {B : Type 0} → ℕ → ℕ → State B
new_development_state new_player_id now_ms = record {
  player_id = new_player_id;
  owner_epoch = local_owner_epoch;
  player_seq = 0;
  checkpoint_revision = 1;
  coins = initial_coin_balance;
  inventory = (basic_fertilizer_id, 1) ∷ [];
  plots = new_initial_plots initial_plot_count 1;
  chapter_id = 1;
  chapter_config_version = server_config_version;
  chapter = ChapterStatus.in_progress;
  chapter_activated_at_ms = now_ms;
  tasks =
      record { id = 1; current = 0; target = 3 }
      ∷ record { id = 2; current = 0; target = 1 }
      ∷ record { id = 3; current = 0; target = 1 }
      ∷ record { id = 4; current = 0; target = 1 }
      ∷ record { id = 5; current = 0; target = 1 }
      ∷ [];
  config_version = server_config_version;
  created_at_ms = now_ms;
  updated_at_ms = now_ms;
  recent_results = [];
  pending_outbox = [];
  career = none;
  crop_compendium = none;
}

-- `ensureInitialPlots`: plots are only added. The result says whether any was.
unfoldable pub ensure_initial_plots : ℕ → ℕ → Map Plot → Map Plot × Bool
ensure_initial_plots zero plot_id plots = (plots, false)
ensure_initial_plots (suc count) plot_id plots = elim (lookup plot_id plots) [
  | some plot ↦ ensure_initial_plots count (plot_id + 1) plots
  | none ↦ (
    (ensure_initial_plots count (plot_id + 1) (insert plot_id (empty_plot plot_id) plots)).0,
    true,
  )
]

-- `ensureCareer`, as the record that it returns.
unfoldable pub ensure_career : Option Career → Career
ensure_career none = record { total_harvested_crop_quantity = 0; total_stolen_crop_quantity = 0 }
ensure_career (some career) = career

-- `checkedAddUint64`; `none` is its error.
unfoldable pub checked_add_uint64 : ℕ → ℕ → Option ℕ
checked_add_uint64 current delta =
    if ltb (max_uint64 - current) delta then none else some (current + delta)

abbrev pub contains : ℕ → List ℕ → Bool
contains x [] = false
contains x (y ∷ ys) = if y == x then true else contains x ys

-- `unlockCrop` on the compendium of a state.
unfoldable pub unlock_crop : Option (List ℕ) → ℕ → Option (List ℕ)
unlock_crop compendium crop_id =
    if crop_id == 0
    then compendium
    else (let unlocked : List ℕ = elim compendium [ none ↦ [] | some ids ↦ ids ] in
        if contains crop_id unlocked then some unlocked else some (sort (unlocked ++ crop_id ∷ [])))

-- The end of every accepted command: a business state transition advances both versions.
unfoldable pub advance_versions : {B : Type 0} → State B → ℕ → ℕ → State B
advance_versions state version now_ms = record state {
  player_seq = u64 (state.player_seq + 1);
  checkpoint_revision = u64 (state.checkpoint_revision + 1);
  config_version = version;
  updated_at_ms = now_ms;
}

-- `if Tasks[i].ID == id && Current < Target { Current++; break }`
unfoldable pub increment_task : ℕ → List Task → List Task
increment_task task_id [] = []
increment_task task_id (task ∷ tasks) =
    if task.id == task_id && ltb task.current task.target
    then record task { current = task.current + 1 } ∷ tasks
    else task ∷ increment_task task_id tasks

-- `if Tasks[i].ID == id { Current = min(Current + quantity, Target); break }`
unfoldable pub credit_task : ℕ → ℕ → List Task → List Task
credit_task task_id quantity [] = []
credit_task task_id quantity (task ∷ tasks) =
    if task.id == task_id
    then (let next = task.current + quantity in
        record task { current = if ltb task.target next then task.target else next } ∷ tasks)
    else task ∷ credit_task task_id quantity tasks

all_done : List Task → Bool
all_done [] = true
all_done (task ∷ tasks) =
    if task.target == 0 || ltb task.current task.target then false else all_done tasks

-- `allTasksComplete`
unfoldable pub all_tasks_complete : List Task → Bool
unfolding all_done
all_tasks_complete [] = false
all_tasks_complete (task ∷ tasks) = all_done (task ∷ tasks)
