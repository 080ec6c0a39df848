-- ===== src/Text/Examples.antt =====
-- The names of package strings on short texts.
use eastbay_overland_rally_p.Prelude.{◌≡◌, refl, [], ◌∷◌}
use eastbay_overland_rally_p.Text.{is_space, fields, join, normalize_human_name}
use eastbay_overland_rally_p.Text.Words.{fields-join, normalize_human_name_idem}

normalize_human_name_idem_example :
    normalize_human_name (normalize_human_name "  Mojave  Road ")
    ≡ normalize_human_name "  Mojave  Road "
normalize_human_name_idem_example = normalize_human_name_idem "  Mojave  Road "

fields-join_example : fields (join ("Mojave" ∷ "Road" ∷ []) " ") ≡ "Mojave" ∷ "Road" ∷ []
unfolding is_space
fields-join_example =
    fields-join ("Mojave" ∷ "Road" ∷ [])
      ((refl, (refl, (refl, (refl, (refl, (refl, tt)))))), ((refl, (refl, (refl, (refl, tt)))), tt))
