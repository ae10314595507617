-- ===== src/Importers/Start.antt =====
-- `Init` and `Importer::CreateInstance` of the three importers, and the planners of their platforms. One
-- of each is built into the program.
use platform_external_drm_hw.Base.{
  ℤ, nonzero, Bool, false, Option, none, some, List, [], ◌∷◌, ◌++◌, not, if◌then◌else◌, ok,
}
use platform_external_drm_hw.Planner.{PlanStage, greedy, hisi}

-- `hw_get_module` for gralloc: the code, and whether the module's author is the one expected.
pub record GrallocModule : Type 0 where
  pub ret : ℤ
  pub author_fits : Bool

-- `DrmGenericImporter::Init`.
unfoldable pub generic_init : GrallocModule → ℤ
generic_init g = if nonzero g.ret then g.ret else ok

-- `DrmMinigbmImporter::Init`, with whether it warns of the author.
unfoldable pub minigbm_init : GrallocModule → ℤ × Bool
minigbm_init g = if nonzero g.ret then (g.ret, false) else (ok, not g.author_fits)

-- `HisiImporter::Init`, with whether it warns of the author.
unfoldable pub hisi_init : GrallocModule → ℤ × Bool
hisi_init g = if nonzero g.ret then (g.ret, false) else (ok, not g.author_fits)

module _ {I : Type 0} (importer : I) where
  unfoldable pub generic_create_instance : GrallocModule → Option I
  unfolding generic_init
  generic_create_instance g = if nonzero (generic_init g) then none else some importer

  unfoldable pub minigbm_create_instance : GrallocModule → Option I
  unfolding minigbm_init
  minigbm_create_instance g = if nonzero (minigbm_init g).0 then none else some importer

  unfoldable pub hisi_create_instance : GrallocModule → Option I
  unfolding hisi_init
  hisi_create_instance g = if nonzero (hisi_init g).0 then none else some importer

-- `Planner::AddStage`.
unfoldable pub add_stage : PlanStage → List PlanStage → List PlanStage
add_stage stage stages = stages ++ stage ∷ []

-- `Planner::CreateInstance` of platformdrmgeneric.cpp, of platformminigbm.cpp and of platformhisi.cpp.
unfoldable pub generic_planner : List PlanStage
unfolding add_stage
generic_planner = add_stage greedy []

unfoldable pub minigbm_planner : List PlanStage
unfolding add_stage
minigbm_planner = add_stage greedy []

unfoldable pub hisi_planner : List PlanStage
unfolding add_stage
hisi_planner = add_stage hisi []
