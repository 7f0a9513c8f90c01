-- ===== src/CApi/Alphabet.antt =====
-- The C functions of src/alpha_map.rs.
use libdatrie_rs.Common.{ltb, true, false, Option, none, some}
use libdatrie_rs.Common.Int.{ℤ, pos, negsuc}
use libdatrie_rs.Common.Run.{Run, ok, ◌>>=◌}
use libdatrie_rs.Types.{AlphaChar}
use libdatrie_rs.AlphaMap
use libdatrie_rs.AlphaMap.{AlphaMap, RangeSet, alpha_map_default}

unfoldable pub alpha_map_new : AlphaMap
alpha_map_new = alpha_map_default

-- `none` is the null pointer.
unfoldable pub alpha_map_clone : Option AlphaMap → Option AlphaMap
alpha_map_clone none = none
alpha_map_clone (some a_map) = some a_map

unfoldable pub alpha_map_add_range :
    RangeSet → AlphaMap → AlphaChar → AlphaChar → Run (AlphaMap × ℤ)
alpha_map_add_range rangemap alpha_map begin end = elim (ltb end begin) [
  | true ↦ ok (alpha_map, negsuc 0)
  | false ↦ (do am ← AlphaMap.add_range rangemap alpha_map (begin, end); ok (am, pos 0))
]
