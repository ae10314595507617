-- ===== src/Hwc/Display/Stacking.antt =====
-- What the `z_map` of `CreateComposition` has at each z; the entries stand from the bottom up.
use platform_external_drm_hw.Base.{
  ℕ, ◌<◌, ◌≤◌, ◌==◌, Option, none, some, refl, sym, ap, ◌∙◌, ◌&&◌, ◌||◌, Bool-cases, min,
  if◌then◌else◌, Bool, false, List, [], ◌∷◌, arith, All, All-imp, ◌⊎◌, ◌≡◌, inl, inr,
}
use platform_external_drm_hw.Layer.{Importer}
use platform_external_drm_hw.Hwc.Layer.{HwcLayer}
use platform_external_drm_hw.Hwc.CompositionType
use platform_external_drm_hw.Hwc.Display.{
  ZEntry, own, ZScan, LayerMap, z_insert, scan_layer, scan_layers, z_map_of, uint32_max,
  client_layer_ref, comp_type,
}

abbrev pub IsRising : List ZEntry → Type 0
IsRising [] = Unit
IsRising (e ∷ es) = All (λ f. e.z < f.z) es × IsRising es

z_insert-All :
    (n : ℕ) (e : ZEntry) (es : List ZEntry)
    → n < e.z
    → All (λ f. n < f.z) es
    → All (λ f. n < f.z) (z_insert e es)
unfolding z_insert
z_insert-All n e [] below h = (below, tt)
z_insert-All n e (x ∷ xs) below h = ground (arith, h.0, h.1, z_insert-All n e xs below h.1)

z_cases : (a b : ℕ) → (a < b) ⊎ (a ≡ b) ⊎ (b < a)
z_cases a b = ground arith

z_insert-IsRising : (e : ZEntry) (es : List ZEntry) → IsRising es → IsRising (z_insert e es)
unfolding z_insert
z_insert-IsRising e [] h = (tt, tt)
z_insert-IsRising e (x ∷ xs) h = elim (z_cases e.z x.z) [
  | inl below ↦ ground (
    arith,
    below,
    h,
    All-imp (λ f. x.z < f.z) (λ f. e.z < f.z) xs (λ f over. omega (arith, below, over)) h.0,
  )
  | inr (inl same) ↦ ground (arith, same, h)
  | inr (inr above) ↦
      ground (arith, above, h, z_insert-All x.z e xs above h.0, z_insert-IsRising e xs h.1)
]

scan_layer-IsRising :
    (importer : Importer) (test : Bool) (e : ℕ × HwcLayer) (s : ZScan)
    → IsRising s.z_map
    → IsRising (scan_layer importer test e s).z_map
unfolding scan_layer
scan_layer-IsRising importer test (h, l) s rising = ground (
  arith,
  rising,
  z_insert-IsRising (record { z = l.z_order; ref = own h; layer = l }) s.z_map rising,
)

scan_layers-IsRising :
    (importer : Importer) (test : Bool) (es : LayerMap) (s : ZScan)
    → IsRising s.z_map
    → IsRising (scan_layers importer test es s).z_map
unfolding scan_layers
scan_layers-IsRising importer test [] s rising = rising
scan_layers-IsRising importer test (e ∷ es) s rising =
    scan_layers-IsRising importer test es (scan_layer importer test e s)
      (scan_layer-IsRising importer test e s rising)

-- What a map has at a z.
abbrev pub at : ℕ → List ZEntry → Option ZEntry
at z [] = none
at z (x ∷ xs) = if x.z == z then some x else at z xs

abbrev pub or_else : Option ZEntry → Option ZEntry → Option ZEntry
or_else none other = other
or_else (some e) other = some e

at-none : (n z : ℕ) (es : List ZEntry) → z ≤ n → All (λ f. n < f.z) es → at z es ≡ none
at-none n z [] low above = refl
at-none n z (x ∷ xs) low above = ground (arith, low, above.0, at-none n z xs low above.1)

abbrev only : ℕ → ZEntry → Option ZEntry
only z e = if e.z == z then some e else none

at-z_insert :
    (z : ℕ) (e : ZEntry) (es : List ZEntry)
    → IsRising es
    → at z (z_insert e es) ≡ or_else (at z es) (only z e)
unfolding z_insert
at-z_insert z e [] h = ground arith
at-z_insert z e (x ∷ xs) h = elim (z_cases e.z x.z) [
  | inl below ↦ elim (Bool-cases (e.z == z)) [
    | inl its ↦ ground (arith, below, its, at-none x.z z xs (ground (arith, below, its)) h.0)
    | inr other ↦ ground (arith, below, other)
  ]
  | inr (inl same) ↦ ground (arith, same)
  | inr (inr above) ↦ ground (arith, above, at-z_insert z e xs h.1)
]

or_else-or_else : (a b c : Option ZEntry) → or_else (or_else a b) c ≡ or_else a (or_else b c)
or_else-or_else none b c = refl
or_else-or_else (some e) b c = refl

or_else-none : (a : Option ZEntry) → or_else a none ≡ a
or_else-none none = refl
or_else-none (some e) = refl

module _ (importer : Importer) (test : Bool) where
  abbrev pub is_for : ℕ → HwcLayer → Bool
  is_for type l = comp_type importer test l == type

  -- The layer that gets a plane at a z: of those with this z, the one with the least handle.
  abbrev pub device_at : ℕ → LayerMap → Option ZEntry
  device_at z [] = none
  device_at z ((h, l) ∷ es) =
      if is_for CompositionType.device l && l.z_order == z
      then some (record { z = l.z_order; ref = own h; layer = l })
      else device_at z es

  abbrev pub has_client : LayerMap → Bool
  has_client [] = false
  has_client ((h, l) ∷ es) = is_for CompositionType.client l || has_client es

  -- The lowest z of a layer for the client.
  abbrev pub lowest : LayerMap → ℕ
  lowest [] = uint32_max
  lowest ((h, l) ∷ es) =
      if is_for CompositionType.client l then min l.z_order (lowest es) else lowest es

  -- A layer with a plane comes before the client's buffer, which stands at the lowest z of the layers in it.
  abbrev pub expected_at : LayerMap → HwcLayer → ℕ → Option ZEntry
  expected_at layers client z = or_else (device_at z layers) (
      if has_client layers
      then only z (record { z = lowest layers; ref = client_layer_ref; layer = client })
      else none)

  at-scan_layer :
      (z : ℕ) (e : ℕ × HwcLayer) (s : ZScan)
      → IsRising s.z_map
      → at z (scan_layer importer test e s).z_map ≡ or_else (at z s.z_map) (device_at z (e ∷ []))
  unfolding scan_layer
  at-scan_layer z (h, l) s rising = ground (
    arith,
    or_else-none (at z s.z_map),
    at-z_insert z (record { z = l.z_order; ref = own h; layer = l }) s.z_map rising,
  )

  at-scan_layers :
      (z : ℕ) (es : LayerMap) (s : ZScan)
      → IsRising s.z_map
      → at z (scan_layers importer test es s).z_map ≡ or_else (at z s.z_map) (device_at z es)
  unfolding scan_layers
  at-scan_layers z [] s rising = sym (or_else-none (at z s.z_map))
  at-scan_layers z (e ∷ es) s rising =
      at-scan_layers z es (scan_layer importer test e s)
        (scan_layer-IsRising importer test e s rising)
      ∙ ap (λ o. or_else o (device_at z es)) (at-scan_layer z e s rising)
      ∙ or_else-or_else (at z s.z_map) (device_at z (e ∷ [])) (device_at z es)
      ∙ ground arith

  scan_layers-client :
      (es : LayerMap) (s : ZScan)
      → s.client_z_order ≤ uint32_max
      → ((scan_layers importer test es s).use_client_layer ≡ (s.use_client_layer || has_client es))
        × ((scan_layers importer test es s).client_z_order ≡ min s.client_z_order (lowest es))
  unfolding scan_layers scan_layer
  scan_layers-client [] s low = (ground arith, ground (arith, low))
  scan_layers-client ((h, l) ∷ es) s low =
      let rest =
        scan_layers-client es (scan_layer importer test (h, l) s)
          (unfold scan_layer in ground (arith, low)) in
      ground (arith, low, rest)

  abbrev start : ZScan
  start = record { z_map = []; use_client_layer = false; client_z_order = uint32_max }

  lowest-le : (es : LayerMap) → lowest es ≤ uint32_max
  lowest-le [] = omega arith
  lowest-le ((h, l) ∷ es) = ground (arith, lowest-le es)

  -- The layers that CreateComposition composes stand strictly rising in z, and at each z there is exactly this: of the layers with this z that are to get a plane, the one with the least handle; where there is none, the client's buffer, if some layer goes to the client and this z is the lowest of those that do; and otherwise nothing.
  pub z_map_of-expected_at :
      (layers : LayerMap) (client : HwcLayer) (z : ℕ)
      → IsRising (z_map_of importer test layers client)
        × (at z (z_map_of importer test layers client) ≡ expected_at layers client z)
  unfolding z_map_of
  z_map_of-expected_at layers client z =
      let s = scan_layers importer test layers start in
      let rising = scan_layers-IsRising importer test layers start tt in
      let for_client = scan_layers-client layers start (omega arith) in
      let e : ZEntry = record { z = s.client_z_order; ref = client_layer_ref; layer = client } in
      (
        ground (arith, rising, z_insert-IsRising e s.z_map rising),
        ground (
          arith,
          for_client,
          lowest-le layers,
          or_else-none (device_at z layers),
          at-scan_layers z layers start tt,
          at-z_insert z e s.z_map rising,
        ),
      )
