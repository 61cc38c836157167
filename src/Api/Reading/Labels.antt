-- ===== src/Api/Reading/Labels.antt =====
-- The labels of a served forecast.
use vyomm.Prelude.{◌≡◌, refl, ap, ◌∙◌, String, List, [], ◌∷◌, map, ◌==◌, if◌then◌else◌}
use vyomm.Float64.{Float64}
use vyomm.GoInt.{pos}
use vyomm.GoTime.{Time}
use vyomm.Forecast.{Point, build}
use vyomm.Forecast.Ranges.{build_labels}
use vyomm.Persistence.{history_of}
use vyomm.Api.{Server, riskiest_device}
use vyomm.Api.Reading.{format_label, to_point_dto, handle_forecast}

module _ {F : Type 0} where
  labels-map :
      (ps : List (Point F))
      → map (λ p. p.label) (map to_point_dto ps)
        ≡ map (λ n. format_label (pos n)) (map (λ p. p.label_minutes) ps)
  unfolding to_point_dto
  labels-map [] = refl
  labels-map (p ∷ ps) = ap (λ l. format_label (pos p.label_minutes) ∷ l) (labels-map ps)

  -- Every forecast request, for a named device or for the default one, also when nothing is known, is
  -- answered with six points labelled from "+5m" to "+30m".
  handle_forecast_labels :
      ⦃fl : Float64 F⦄ (s : Server F) (device mode run_id : String) (now : Time)
      → map (λ p. p.label) (handle_forecast s device mode run_id now).points
        ≡ "+5m" ∷ "+10m" ∷ "+15m" ∷ "+20m" ∷ "+25m" ∷ "+30m" ∷ []
  unfolding handle_forecast format_label
  handle_forecast_labels s device mode run_id now =
      let selected = if device == "" then riskiest_device s else device in
      let history = if selected == "" then [] else history_of s.store selected in
      labels-map (build selected history).points
      ∙ ap (map (λ n. format_label (pos n))) (build_labels selected history).0
