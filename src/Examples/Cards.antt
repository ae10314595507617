-- ===== src/Examples/Cards.antt =====
-- A card with one output, and the manager that opens it.
use platform_external_drm_hw.Base.{
  ℕ, ◌≡◌, refl, true, ◌||◌, not, ◌==◌, none, some, [], ◌∷◌, arith, ℤ, ok, Result, done, failed,
  Option, nonzero, ltb, String, has_bit,
}
use platform_external_drm_hw.Drm.Property.{PropertyRes}
use platform_external_drm_hw.Drm.Property
use platform_external_drm_hw.Drm.Connector.{connected, writeback, internal, external}
use platform_external_drm_hw.Drm.Plane.{ObjectProperties}
use platform_external_drm_hw.Drm.Device.{
  DrmDevice, handles_display, get_crtc_for_display, get_writeback_connector_for_display,
  try_encoder_for_display,
}
use platform_external_drm_hw.Drm.Device.Writeback.{is_some}
use platform_external_drm_hw.Drm.Device.Init.{Card, Opened, init}
use platform_external_drm_hw.Drm.Device.Init.Served.{init-displays}
use platform_external_drm_hw.Resources.{
  ResourceManager, wildcard, new_manager, init_manager, get_drm_device, get_importer,
}
use platform_external_drm_hw.Resources.Startup.{init_manager-ends}
use platform_external_drm_hw.Resources.Numbering.{
  IsNumbered, init_manager-IsNumbered, get_drm_device_lem,
}

abbrev prop : ℕ → String → PropertyRes × ℕ
prop id name = (
  record { prop_id = id; flags = 2; name = name; values = 0 ∷ 2 ∷ []; enums = []; blob_ids = [] },
  1,
)

abbrev props : ObjectProperties
props = some (
    prop 1 "type"
    ∷ prop 2 "CRTC_ID"
    ∷ prop 3 "FB_ID"
    ∷ prop 4 "CRTC_X"
    ∷ prop 5 "CRTC_Y"
    ∷ prop 6 "CRTC_W"
    ∷ prop 7 "CRTC_H"
    ∷ prop 8 "SRC_X"
    ∷ prop 9 "SRC_Y"
    ∷ prop 10 "SRC_W"
    ∷ prop 11 "SRC_H"
    ∷ prop 12 "ACTIVE"
    ∷ prop 13 "MODE_ID"
    ∷ prop 14 "OUT_FENCE_PTR"
    ∷ prop 15 "DPMS"
    ∷ [])

abbrev a_card : Card
a_card = record {
  opened = true;
  universal_planes = ok;
  atomic = ok;
  resources = some (record {
    min_width = 0;
    min_height = 0;
    max_width = 4096;
    max_height = 4096;
    crtcs = 31 ∷ [];
    encoders = 41 ∷ [];
    connectors = 51 ∷ [];
  });
  get_crtc = λ id. some id;
  get_encoder =
      λ id. some (record { encoder_id = id; crtc_id = 0; possible_crtcs = 1; possible_clones = 0 });
  get_connector = λ id. some (record {
    connector_id = id;
    connector_type = 11;
    connection = connected;
    mm_width = 500;
    mm_height = 300;
    encoders = 41 ∷ [];
    encoder_id = 0;
  });
  modes = λ id. none;
  crtc_properties = λ id. props;
  connector_properties = λ id. props;
  plane_properties = λ id. props;
  planes = some (61 ∷ []);
  get_plane = λ id. some (id, 1);
  listener = ok;
}

abbrev opened_or : Opened → Result Opened → Opened
opened_or o (done p) = p
opened_or o (failed e) = o

abbrev no_device : Opened
no_device = record {
  device = record {
    crtcs = [];
    encoders = [];
    connectors = [];
    writeback_connectors = [];
    planes = [];
    displays = [];
    mode_id = 0;
  };
  min_resolution = (0, 0);
  max_resolution = (0, 0);
}

opened_card : Opened
unfolding init
opened_card = opened_or no_device (init a_card 0)

a_card-opens : init a_card 0 ≡ done opened_card
unfolding init opened_card writeback platform_external_drm_hw.Drm.Property.value
    platform_external_drm_hw.Drm.Property.init has_bit internal external try_encoder_for_display
a_card-opens = refl

card-handles : handles_display opened_card.device 0 ≡ true
unfolding init opened_card handles_display get_writeback_connector_for_display writeback
    platform_external_drm_hw.Drm.Property.value platform_external_drm_hw.Drm.Property.init has_bit
    internal external try_encoder_for_display
card-handles = refl

opened_example : is_some (get_crtc_for_display opened_card.device (some 0)) ≡ true
opened_example = init-displays a_card 0 opened_card a_card-opens 0 card-handles

-- The first of the numbered devices is there.
abbrev cards : ℕ → Card
cards idx = record a_card { opened = idx == 0 }

abbrev importer : DrmDevice → Option ℕ
importer dev = some 1

startup_example :
    (r : ℤ × ResourceManager ℕ) × (init_manager importer (wildcard cards) ok 2 new_manager ≡ some r)
    × ((nonzero r.0 || not (r.1.num_displays == 0)) ≡ true)
startup_example = init_manager-ends importer cards 1 2 ok new_manager (omega arith) refl

-- How the search ends.
ending :
    (r : ℤ × ResourceManager ℕ) × (init_manager importer (wildcard cards) ok 2 new_manager ≡ some r)
    × ((nonzero r.0 || not (r.1.num_displays == 0)) ≡ true)
ending = init_manager-ends importer cards 1 2 ok new_manager (omega arith) refl

numbered_example : IsNumbered ending.0.1
numbered_example = init_manager-IsNumbered importer (wildcard cards) ok 2 ending.0 ending.1

ending-IsNumbered : IsNumbered ending.0.1
ending-IsNumbered = init_manager-IsNumbered importer (wildcard cards) ok 2 ending.0 ending.1

finding_example :
    (is_some (get_drm_device ending.0.1 0) ≡ ltb 0 ending.0.1.num_displays)
    × (is_some (get_importer ending.0.1 0) ≡ ltb 0 ending.0.1.num_displays)
finding_example = get_drm_device_lem ending.0.1 ending-IsNumbered 0
