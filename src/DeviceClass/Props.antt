-- ===== src/DeviceClass/Props.antt =====
-- The map of properties behaves as a map.
use com_webos_service_pdm.Prelude.{
  String, ◌≡◌, refl, [], ◌∷◌, arith, str_eq, str_eq_iff, if◌then◌else◌,
}
use com_webos_service_pdm.DeviceClass.{Props, get_prop, put_prop}

-- Reading after a write gives the written value at its key, and what was there at any other.
pub get_prop-put_prop :
    (k j v : String) (p : Props)
    → get_prop j (put_prop k v p) ≡ (if str_eq k j then v else get_prop j p)
unfolding get_prop put_prop
get_prop-put_prop k j v [] = refl
get_prop-put_prop k j v ((i, w) ∷ p) =
    ground (arith, str_eq_iff k j, str_eq_iff i k, str_eq_iff i j, get_prop-put_prop k j v p)
