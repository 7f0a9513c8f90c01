-- ===== src/Trietool/Trim.antt =====
-- About `trim_ascii`.
use libdatrie_rs.Common.{ℕ, ◌≡◌, refl, ap, ◌∙◌, Bool, true, false, List, [], ◌∷◌, ◌++◌, All}
use libdatrie_rs.Trietool.Utf8.{is_space, trim_start, trim_end, push_unless_space, trim_ascii}

-- There is a first byte, and it is no whitespace; and a last one.
abbrev pub starts_plain : List ℕ → Bool
starts_plain [] = false
starts_plain (b ∷ bs) = elim (is_space b) [ true ↦ false | false ↦ true ]

abbrev pub ends_plain : List ℕ → Bool
ends_plain [] = false
ends_plain (b ∷ []) = elim (is_space b) [ true ↦ false | false ↦ true ]
ends_plain (b ∷ c ∷ bs) = ends_plain (c ∷ bs)

not_space : (b : Bool) → (elim b [ true ↦ false | false ↦ true ]) ≡ true → b ≡ false
not_space true h = cc
not_space false h = refl

trim_start-spaces :
    (left bs : List ℕ) → All (λ d. is_space d ≡ true) left → trim_start (left ++ bs) ≡ trim_start bs
trim_start-spaces [] bs h = refl
trim_start-spaces (d ∷ left) bs h = rw (h.0) (trim_start-spaces left bs h.1)

trim_start-plain :
    (core right : List ℕ) → starts_plain core ≡ true → trim_start (core ++ right) ≡ core ++ right
trim_start-plain [] right h = cc
trim_start-plain (b ∷ core) right h = rw (not_space (is_space b) h) refl

trim_end-spaces : (right : List ℕ) → All (λ d. is_space d ≡ true) right → trim_end right ≡ []
trim_end-spaces [] h = refl
trim_end-spaces (d ∷ right) h = rw (trim_end-spaces right h.1, h.0) refl

trim_end-plain :
    (core right : List ℕ)
    → ends_plain core ≡ true
    → All (λ d. is_space d ≡ true) right
    → trim_end (core ++ right) ≡ core
trim_end-plain [] right h spaces = cc
trim_end-plain (b ∷ []) right h spaces =
    rw (trim_end-spaces right spaces, not_space (is_space b) h) refl
trim_end-plain (b ∷ c ∷ core) right h spaces =
    ap (push_unless_space b) (trim_end-plain (c ∷ core) right h spaces)

pub trim_ascii-core :
    (left core right : List ℕ)
    → All (λ d. is_space d ≡ true) left
    → starts_plain core ≡ true
    → ends_plain core ≡ true
    → All (λ d. is_space d ≡ true) right
    → trim_ascii (left ++ (core ++ right)) ≡ core
unfolding trim_ascii
trim_ascii-core left core right before first last after =
    ap trim_end (trim_start-spaces left (core ++ right) before ∙ trim_start-plain core right first)
    ∙ trim_end-plain core right last after
