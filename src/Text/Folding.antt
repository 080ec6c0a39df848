-- ===== src/Text/Folding.antt =====
-- strings.EqualFold compares two texts by their folded characters.
use eastbay_overland_rally_p.Prelude.{◌≡◌, String, arith, eq_iff}
use eastbay_overland_rally_p.Text.{Unicode, map_chars, equal_fold}

pub equal_fold_comm : (u : Unicode) (s t : String) → equal_fold u s t ≡ equal_fold u t s
unfolding equal_fold
equal_fold_comm u s t =
    let a = map_chars u.fold_char s in
    let b = map_chars u.fold_char t in ground (arith, eq_iff a b, eq_iff b a)
