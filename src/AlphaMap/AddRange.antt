-- ===== src/AlphaMap/AddRange.antt =====
-- About `add_range`: the characters of the alphabet and the tables after it.
use libdatrie_rs.Common.{
  ◌+◌, ◌^◌, ◌≤◌, ◌<◌, ◌≡◌, refl, sym, ap, subst, ◌∙◌, ◌≢◌, ◌&&◌, ◌||◌, true, List, [], ◌∷◌, arith,
  leb, le→leb,
}
use libdatrie_rs.Common.Run.{ok}
use libdatrie_rs.Types.{AlphaChar}
use libdatrie_rs.AlphaMap.Defs.{
  RangeSet, Range, IsRanges, in_ranges, AlphaMap, alpha_map_default, count_chars, recalc_ranges,
  recalc_work_area, add_range,
}
use libdatrie_rs.AlphaMap.Table.{Tables, recalc_work_area_lem}
use libdatrie_rs.AlphaMap.RoundTrip.{Current}

-- Only the ranges count for the tables of an alphabet that is not empty.
same-recalc :
    (self : AlphaMap) (r : Range) (rs : List Range)
    → recalc_ranges (record alpha_map_default { ranges = self.ranges }) (r ∷ rs)
      ≡ recalc_ranges self (r ∷ rs)
unfolding recalc_ranges
same-recalc self r rs = refl

recalc-Current :
    (self self' : AlphaMap) (rs : List Range)
    → self.ranges ≡ rs
    → rs ≢ []
    → recalc_work_area self ≡ ok self'
    → self'.ranges ≡ self.ranges
    → Current self'
unfolding recalc_work_area
recalc-Current self self' [] e ne run same = absurd (ne refl)
recalc-Current self self' (r ∷ rs) e ne run same =
    subst (λ xs. recalc_ranges (record alpha_map_default { ranges = xs }) xs ≡ ok self')
      (sym (same ∙ e))
      (ap (λ xs. recalc_ranges (record alpha_map_default { ranges = xs }) (r ∷ rs)) (sym e)
        ∙ same-recalc self r rs
        ∙ ap (λ xs. recalc_ranges self xs) (sym e)
        ∙ run)

not_empty : (a : AlphaChar) (rs : List Range) → in_ranges a rs ≡ true → rs ≢ []
not_empty a rs h e = cc

-- The alphabet `self'` is `self` with the characters from `lo` to `hi`.
pub record Extended (self : AlphaMap) (lo hi : AlphaChar) (self' : AlphaMap) : Type 0 where
  pub sorted : IsRanges 0 self'.ranges
  pub mem :
      (a : AlphaChar)
      → in_ranges a self'.ranges ≡ ((leb lo a && leb a hi) || in_ranges a self.ranges)
  pub current : Current self'
  pub tables : Tables self'

module _ (rangemap : RangeSet) (self : AlphaMap) (lo hi : AlphaChar)
    (sorted : IsRanges 0 self.ranges) where
  -- On sorted ranges, and as long as the labels fit `i32`, `add_range` of a range that is not empty
  -- does not panic, adds its characters and no others, and leaves sorted ranges with tables that
  -- take every character to its label and back.
  pub add_range_lem :
      (rs : List Range)
      → lo ≤ hi
      → rangemap.insert self.ranges (lo, hi) ≡ ok rs
      → count_chars rs + 1 < 2 ^ 31
      → (self' : AlphaMap) × (add_range rangemap self (lo, hi) ≡ ok self')
        × Extended self lo hi self'
  unfolding add_range
  add_range_lem rs le run small =
      let (rs', run', sorted', mem) = rangemap.insert_ranges self.ranges lo hi sorted le in
      let same : rs' ≡ rs = cc in
      let ne : rs' ≢ [] =
        not_empty lo rs' (mem lo ∙ rw (le→leb lo lo (omega arith), le→leb lo hi le) refl) in
      let base : AlphaMap = record self { ranges = rs' } in
      let (self', e, kept, tables) =
        recalc_work_area_lem base sorted' ne
          (subst (λ xs. count_chars xs + 1 < 2 ^ 31) (sym same) small) in
      (
        self',
        rw (run', e),
        record {
          sorted = rw kept sorted';
          mem = λ a. rw kept (mem a);
          current = recalc-Current base self' rs' refl ne e kept;
          tables = tables;
        },
      )
