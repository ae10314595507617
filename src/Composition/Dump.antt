-- ===== src/Composition/Dump.antt =====
-- `DrmDisplayComposition::Dump` of drmdisplaycomposition.cpp and `DrmDisplayCompositor::Dump` of
-- drmdisplaycompositor.cpp: what goes into the stream, piece by piece. What the stream makes of a number
-- is the library's.
use platform_external_drm_hw.Base.{
  ℕ, ◌+◌, ℤ, pos, negsuc, Option, none, some, List, [], ◌∷◌, ◌++◌, ◌==◌, if◌then◌else◌, length,
  String,
}
use platform_external_drm_hw.Drm.Plane.{DrmPlane}
use platform_external_drm_hw.Layer.{
  DrmHwcLayer, DrmHwcBlending, none_blending, pre_mult, coverage, DrmBo, protected_usage,
}
use platform_external_drm_hw.Layer.Transform.{dump_words}
use platform_external_drm_hw.Planner.{DrmCompositionPlane, PlaneUse, k_disable, k_layer}
use platform_external_drm_hw.Composition.{
  DrmDisplayComposition, DrmCompositionType, empty, frame, dpms, modeset, dpms_on, dpms_off,
}

-- What is put into the stream by one `<<`.
pub data Piece : Type 0 where
  text : String → Piece
  number : ℤ → Piece

abbrev Pieces : Type 0
Pieces = List Piece

type_to_string : DrmCompositionType → Piece
type_to_string empty = text "EMPTY"
type_to_string frame = text "FRAME"
type_to_string dpms = text "DPMS"
type_to_string modeset = text "MODESET"

dpms_mode_to_string : ℕ → Piece
dpms_mode_to_string mode =
    if mode == dpms_on
    then text "ON"
    else (if mode == dpms_off then text "OFF" else text "<invalid>")

blending_to_string : DrmHwcBlending → Piece
blending_to_string none_blending = text "NONE"
blending_to_string pre_mult = text "PREMULT"
blending_to_string coverage = text "COVERAGE"

unfoldable pub dump_buffer : Option DrmBo → Pieces
dump_buffer none = text "buffer=<invalid>" ∷ []
dump_buffer (some bo) =
    text "buffer[w/h/format]="
    ∷ number (pos bo.width)
    ∷ text "/"
    ∷ number (pos bo.height)
    ∷ text "/"
    ∷ number (pos bo.format)
    ∷ []

-- The words with "|" between them.
joined : List String → Pieces
joined [] = []
joined (w ∷ []) = text w ∷ []
joined (w ∷ v ∷ ws) = text w ∷ text "|" ∷ joined (v ∷ ws)

dump_transform : ℕ → Pieces
unfolding joined dump_words
dump_transform t = text "[" ∷ joined (dump_words t) ++ text "]" ∷ []

-- What `Dump` adds for the type of the composition.
dump_type : DrmDisplayComposition → DrmCompositionType → Pieces
unfolding dpms_mode_to_string
dump_type c empty = []
dump_type c frame = []
dump_type c dpms = text " dpms_mode=" ∷ dpms_mode_to_string c.dpms_mode ∷ []
dump_type c modeset =
    text " display_mode="
    ∷ number (pos c.display_mode.h_display)
    ∷ text "x"
    ∷ number (pos c.display_mode.v_display)
    ∷ []

dump_layer : ℕ → DrmHwcLayer → Pieces
unfolding dump_buffer dump_transform blending_to_string protected_usage
dump_layer i l =
    (text "      [" ∷ number (pos i) ∷ text "] " ∷ dump_buffer l.buffer)
    ++ ((if protected_usage l then text " protected" ∷ [] else [])
        ++ (text " transform=" ∷ dump_transform l.transform
            ++ (text " blending[a="
                ∷ number (pos l.alpha)
                ∷ text "]="
                ∷ blending_to_string l.blending
                ∷ text "\n"
                ∷ [])))

unfoldable pub dump_layers : ℕ → List DrmHwcLayer → Pieces
unfolding dump_layer
dump_layers i [] = []
dump_layers i (l ∷ ls) = dump_layer i l ++ dump_layers (i + 1) ls

plane_id : Option DrmPlane → ℤ
plane_id none = negsuc 0
plane_id (some p) = pos p.id

use_to_string : PlaneUse → Piece
use_to_string k_disable = text "DISABLE"
use_to_string k_layer = text "LAYER"

dump_sources : List ℕ → Pieces
dump_sources [] = []
dump_sources (i ∷ is) = number (pos i) ∷ text " " ∷ dump_sources is

dump_plane : ℕ → DrmCompositionPlane → Pieces
unfolding plane_id use_to_string dump_sources
dump_plane i p =
    (text "      ["
      ∷ number (pos i)
      ∷ text "]"
      ∷ text " plane="
      ∷ number (plane_id p.plane)
      ∷ text " type="
      ∷ use_to_string p.type
      ∷ text " source_layer="
      ∷ [])
    ++ (dump_sources p.source_layers ++ text "\n" ∷ [])

unfoldable pub dump_planes : ℕ → List DrmCompositionPlane → Pieces
unfolding dump_plane
dump_planes i [] = []
dump_planes i (p ∷ ps) = dump_plane i p ++ dump_planes (i + 1) ps

-- `Dump` of a composition.
unfoldable pub dump : DrmDisplayComposition → Pieces
unfolding type_to_string dump_type dump_layers dump_planes
dump c =
    (text "----DrmDisplayComposition"
      ∷ text " crtc="
      ∷ number (pos c.crtc.id)
      ∷ text " type="
      ∷ type_to_string c.type
      ∷ dump_type c c.type)
    ++ ((text "    Layers: count=" ∷ number (pos (length c.layers)) ∷ text "\n" ∷ [])
        ++ (dump_layers 0 c.layers
            ++ ((text "    Planes: count="
                  ∷ number (pos (length c.composition_planes))
                  ∷ text "\n"
                  ∷ [])
                ++ dump_planes 0 c.composition_planes)))
