-- ===== src/AlphaMap/Chars.antt =====
-- The characters of a set of ranges, in order, and the nested loops of `recalc_work_area` as one
-- loop over them.
use libdatrie_rs.Common.{
  ℕ, zero, suc, ◌+◌, ◌-◌, ◌≤◌, ◌≡◌, refl, ap, ◌∙◌, ◌&&◌, ◌||◌, List, [], ◌∷◌, ◌++◌, arith, ltb, leb,
  length, length-append, has, Ascending, Ascending-weaken,
}
use libdatrie_rs.Common.Run.{Run, ok, ◌>>=◌, bind_ext, bind_group}
use libdatrie_rs.Types.{AlphaChar}
use libdatrie_rs.AlphaMap.Defs.{
  Range, in_ranges, IsRanges, Work, assign, fill_range, fill_ranges, count_chars,
}

abbrev pub upto : ℕ → AlphaChar → List AlphaChar
upto zero a = []
upto (suc n) a = a ∷ upto n (a + 1)

abbrev pub chars : List Range → List AlphaChar
chars [] = []
chars ((lo, hi) ∷ rs) = upto (hi + 1 - lo) lo ++ chars rs

unfoldable pub fill_list : AlphaChar → List AlphaChar → Work → Run Work
fill_list alpha_begin [] w = ok w
fill_list alpha_begin (a ∷ cs) w = assign alpha_begin a w >>= fill_list alpha_begin cs

fill_range-upto :
    (alpha_begin n a : ℕ) (w : Work)
    → fill_range alpha_begin n a w ≡ fill_list alpha_begin (upto n a) w
unfolding fill_range fill_list
fill_range-upto alpha_begin zero a w = refl
fill_range-upto alpha_begin (suc n) a w =
    bind_ext (assign alpha_begin a w) (fill_range-upto alpha_begin n (a + 1))

fill_list-append :
    (alpha_begin : ℕ) (xs ys : List AlphaChar) (w : Work)
    → fill_list alpha_begin (xs ++ ys) w ≡ (fill_list alpha_begin xs w >>= fill_list alpha_begin ys)
unfolding fill_list
fill_list-append alpha_begin [] ys w = refl
fill_list-append alpha_begin (x ∷ xs) ys w =
    bind_ext (assign alpha_begin x w) (fill_list-append alpha_begin xs ys)
    ∙ bind_group (assign alpha_begin x w) (fill_list alpha_begin xs) (fill_list alpha_begin ys)

-- The two loops visit the characters in order.
pub fill_ranges-chars :
    (alpha_begin : ℕ) (rs : List Range) (w : Work)
    → fill_ranges alpha_begin rs w ≡ fill_list alpha_begin (chars rs) w
unfolding fill_ranges
fill_ranges-chars alpha_begin [] w = unfold fill_list in refl
fill_ranges-chars alpha_begin ((lo, hi) ∷ rs) w =
    rw
      (
        fill_list-append alpha_begin (upto (hi + 1 - lo) lo) (chars rs) w,
        fill_range-upto alpha_begin (hi + 1 - lo) lo w,
      )
      (bind_ext (fill_list alpha_begin (upto (hi + 1 - lo) lo) w)
        (fill_ranges-chars alpha_begin rs))

length-upto : (n a : ℕ) → length (upto n a) ≡ n
length-upto zero a = refl
length-upto (suc n) a = ap suc (length-upto n (a + 1))

pub length-chars : (m : ℕ) (rs : List Range) → IsRanges m rs → length (chars rs) ≡ count_chars rs
length-chars m [] h = refl
length-chars m ((lo, hi) ∷ rs) h = omega (
  arith,
  length-append (upto (hi + 1 - lo) lo) (chars rs),
  length-upto (hi + 1 - lo) lo,
  length-chars (hi + 2) rs h.2,
)

has-upto : (n lo a : ℕ) → has a (upto n lo) ≡ (leb lo a && ltb a (lo + n))
has-upto zero lo a = ground arith
has-upto (suc n) lo a = ground (arith, has-upto n (lo + 1) a)

has-append : (a : ℕ) (xs ys : List ℕ) → has a (xs ++ ys) ≡ (has a xs || has a ys)
has-append a [] ys = refl
has-append a (x ∷ xs) ys = ground (arith, has-append a xs ys)

pub has-chars : (m a : ℕ) (rs : List Range) → IsRanges m rs → has a (chars rs) ≡ in_ranges a rs
has-chars m a [] h = refl
has-chars m a ((lo, hi) ∷ rs) h = ground (
  arith,
  has-append a (upto (hi + 1 - lo) lo) (chars rs),
  has-upto (hi + 1 - lo) lo a,
  has-chars (hi + 2) a rs h.2,
)

Ascending-upto :
    (n m a : ℕ) (ys : List ℕ) → m ≤ a → Ascending (a + n) ys → Ascending m (upto n a ++ ys)
Ascending-upto zero m a [] h s = s
Ascending-upto zero m a (y ∷ ys) h s = ground arith
Ascending-upto (suc n) m a ys h s = (
  h,
  Ascending-upto n (suc a) (a + 1) ys (omega arith)
      (Ascending-weaken (a + suc n) (a + 1 + n) ys s (omega arith)),
)

pub Ascending-chars : (m : ℕ) (rs : List Range) → IsRanges m rs → Ascending m (chars rs)
Ascending-chars m [] h = tt
Ascending-chars m ((lo, hi) ∷ rs) h =
    Ascending-upto (hi + 1 - lo) m lo (chars rs) h.0 (
      Ascending-weaken (hi + 2) _ (chars rs) (Ascending-chars (hi + 2) rs h.2) (omega (arith, h.1)))
