-- ===== src/Player/Views.antt =====
-- The views of a player's state in responses: `Plot.View`, `effectView`, the current chapter of
-- `State.Snapshot` (server/internal/player/state.go), `careerView` and `compendiumView`
-- (career.go) and `formatUUIDBytes` (fertilizer.go).
use supernova_classic_farm.Base.{
  ℕ, ◌-◌, Bool, true, false, ◌&&◌, Option, none, some, List, [], ◌∷◌, map, ◌==◌, leb, if◌then◌else◌,
  length,
}
use supernova_classic_farm.Base.Bytes.{hex_encode}
use supernova_classic_farm.Base.Uuid.{dashed}
use supernova_classic_farm.Plot.{PlotState, TimedEffect, Plot}
use supernova_classic_farm.Wire.{
  EffectView, PlotView, TaskProgressView, ChapterView, PlayerCareerView,
}
use supernova_classic_farm.Player.{Task, State}

unfoldable pub format_uuid_bytes : List ℕ → List ℕ
unfolding dashed
format_uuid_bytes value = if length value == 16 then dashed (hex_encode value) else []

unfoldable pub effect_view : TimedEffect → EffectView
unfolding format_uuid_bytes
effect_view effect = record {
  effect_instance_id = format_uuid_bytes effect.effect_instance_id;
  effect_item_id = effect.effect_item_or_pest_id;
  effect_config_version = effect.config_version;
  start_at_ms = effect.start_at_ms;
  end_at_ms = effect.end_at_ms;
  source_player_id = effect.source_player_id;
}

abbrev view_of : Option TimedEffect → Option EffectView
view_of none = none
view_of (some effect) = some (effect_view effect)

abbrev pub is_mature : PlotState → Bool
is_mature PlotState.mature = true
is_mature _ = false

-- `Plot.View` of a plot that is there.
unfoldable pub plot_view : Plot → PlotView
unfolding effect_view
plot_view plot = record {
  plot_id = plot.id;
  plot_state = plot.state;
  crop_id = plot.crop_id;
  crop_config_version = plot.crop_config_version;
  planted_at_ms = plot.planted_at_ms;
  estimated_mature_at_ms = elim plot.estimated_mature_at_ms [ none ↦ 0 | some t ↦ t ];
  harvestable_quantity =
      if is_mature plot.state && leb plot.stolen_quantity plot.base_yield
      then plot.base_yield - plot.stolen_quantity
      else 0;
  fertilizer_effect = view_of plot.fertilizer_effect;
  pest_effect = view_of plot.pest_effect;
}

insert_task : Task → List Task → List Task
insert_task task [] = task ∷ []
insert_task task (other ∷ tasks) =
    if leb task.id other.id then task ∷ other ∷ tasks else other ∷ insert_task task tasks

-- `sort.Slice` by task ID.
sort_tasks : List Task → List Task
unfolding insert_task
sort_tasks [] = []
sort_tasks (task ∷ tasks) = insert_task task (sort_tasks tasks)

abbrev task_view : Task → TaskProgressView
task_view task = record {
  task_id = task.id;
  current_value = task.current;
  target_value = task.target;
  completed = leb task.target task.current;
}

-- `Snapshot().CurrentChapter`
unfoldable pub current_chapter : {B : Type 0} → State B → ChapterView
unfolding sort_tasks
current_chapter state = record {
  chapter_id = state.chapter_id;
  status = state.chapter;
  tasks = map task_view (sort_tasks state.tasks);
}

unfoldable pub career_view : {B : Type 0} → State B → PlayerCareerView
career_view state = elim state.career [
  | none ↦ record { total_harvested_crop_quantity = 0; total_stolen_crop_quantity = 0 }
  | some career ↦ record {
    total_harvested_crop_quantity = career.total_harvested_crop_quantity;
    total_stolen_crop_quantity = career.total_stolen_crop_quantity;
  }
]

unfoldable pub compendium_view : {B : Type 0} → State B → List ℕ
compendium_view state = elim state.crop_compendium [ none ↦ [] | some ids ↦ ids ]
