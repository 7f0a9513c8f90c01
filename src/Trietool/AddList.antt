-- ===== src/Trietool/AddList.antt =====
-- The command add-list of trietool beside the command add.
use libdatrie_rs.Common.{
  ℕ, ◌*◌, ◌%◌, ◌≡◌, refl, ap, ◌∙◌, Bool, true, false, ◌||◌, Option, none, some, List, [], ◌∷◌, ◌++◌,
  ◌==◌, length, All, arith,
}
use libdatrie_rs.Common.Int.{ℤ}
use libdatrie_rs.Common.Run.{ok, ◌>>=◌, bind_ext}
use libdatrie_rs.Types.{TrieData}
use libdatrie_rs.Types.Text.{as_alphachar}
use libdatrie_rs.Symbols.{ArrayVec}
use libdatrie_rs.Trie.Store.{store}
use libdatrie_rs.CApi.Tries.{CTrie}
use libdatrie_rs.Trietool.Utf8.{from_utf8_lossy, split_lines, is_space}
use libdatrie_rs.Trietool.Trim.{starts_plain, ends_plain, trim_ascii-core}
use libdatrie_rs.Trietool.Decode.{Iconv}
use libdatrie_rs.Trietool.Commands.{add, add_pairs}
use libdatrie_rs.Trietool.WordLists.{SplitPattern, encoder_for, decode_key, add_lines, add_list}

abbrev pub is_separator : ℕ → Bool
is_separator c = c == 9 || c == 44

-- What is documented of `splitn`.
abbrev pub Splits : SplitPattern → Type 0
Splits split_pattern =
    (key number : List ℕ) (c : ℕ)
    → All (λ d. is_separator d ≡ false) key
    → is_separator c ≡ true
    → split_pattern (key ++ (c ∷ number)) ≡ (key, some number)

-- A line of the file, with what stands before the key and behind the number.
pub record Entry : Type 0 where
  pub left : List ℕ
  pub key : List ℕ
  pub separator : ℕ
  pub number : List ℕ
  pub right : List ℕ

abbrev pub core_of : Entry → List ℕ
core_of e = e.key ++ (e.separator ∷ e.number)

abbrev pub line_of : Entry → List ℕ
line_of e = e.left ++ (core_of e ++ e.right)

-- The line has no line feed; the key has no separator; what stands before the key and behind the
-- number is whitespace, and the first byte and the last of what is between is none.
pub record IsEntry (e : Entry) : Type 0 where
  pub plain : All (λ d. is_separator d ≡ false) e.key
  pub separates : is_separator e.separator ≡ true
  pub one_line : All (λ d. (d == 10) ≡ false) (line_of e)
  pub before : All (λ d. is_space d ≡ true) e.left
  pub first : starts_plain (core_of e) ≡ true
  pub last : ends_plain (core_of e) ≡ true
  pub after : All (λ d. is_space d ≡ true) e.right

abbrev pub file_of : List Entry → List ℕ
file_of [] = []
file_of (e ∷ es) = line_of e ++ (10 ∷ file_of es)

abbrev pub lines_of : List Entry → List (List ℕ)
lines_of [] = []
lines_of (e ∷ es) = line_of e ∷ lines_of es

-- The arguments of the command add.
abbrev pub words_of : List Entry → List (List ℕ)
words_of [] = []
words_of (e ∷ es) = from_utf8_lossy e.key ∷ from_utf8_lossy e.number ∷ words_of es

length-words_of : (es : List Entry) → length (words_of es) ≡ length es * 2
length-words_of [] = refl
length-words_of (e ∷ es) = omega (arith, length-words_of es)

words_of-even : (es : List Entry) → (length (words_of es) % 2 == 0) ≡ true
words_of-even es = rw (length-words_of es) ground arith

split_lines_lem :
    (line rest : List ℕ)
    → All (λ d. (d == 10) ≡ false) line
    → split_lines (line ++ (10 ∷ rest)) ≡ line ∷ split_lines rest
unfolding split_lines
split_lines_lem [] rest h = refl
split_lines_lem (b ∷ line) rest h = rw (h.0, split_lines_lem line rest h.1) refl

split_lines-file_of : (es : List Entry) → All IsEntry es → split_lines (file_of es) ≡ lines_of es
unfolding split_lines
split_lines-file_of [] h = refl
split_lines-file_of (e ∷ es) h =
    split_lines_lem (line_of e) (file_of es) h.0.one_line
    ∙ ap (λ k. line_of e ∷ k) (split_lines-file_of es h.1)

module _ (iconv : Iconv) (new_iconv : List ℕ → Option iconv.State) (v : ArrayVec)
    (t : TrieData (Option ℤ)) (fuel : ℕ) (split_pattern : SplitPattern) where
  add_lines-add_pairs :
      Splits split_pattern
      → (es : List Entry) → All IsEntry es
      → (trie : CTrie)
      → add_lines iconv new_iconv v t fuel split_pattern none trie (lines_of es)
        ≡ add_pairs v t trie (words_of es)
  unfolding add_lines add_pairs decode_key
  add_lines-add_pairs splits [] h trie = refl
  add_lines-add_pairs splits (e ∷ es) h trie =
      let trimmed =
        trim_ascii-core e.left (core_of e) e.right h.0.before h.0.first h.0.last h.0.after in
      rw (trimmed, splits e.key e.number e.separator h.0.plain h.0.separates)
        (bind_ext (store v t trie (as_alphachar (from_utf8_lossy e.key)) _)
          (λ r. rw (add_lines-add_pairs splits es h.1 r.0) refl))

  -- Without an encoding, or with UTF-8, the command add-list on a file of lines, each a key without
  -- tab or comma, a tab or comma, and a number, between any whitespace but line feeds, where the
  -- first byte of the key, or the comma, and the last of the number, or the comma, are no
  -- whitespace, does and prints what the command add does with these keys and numbers as its
  -- arguments.
  pub add_list-add :
      Splits split_pattern
      → (es : List Entry) → All IsEntry es
      → (encoding : Option (List ℕ)) → encoder_for iconv new_iconv encoding ≡ ok none
      → (trie : CTrie)
      → (add_list iconv new_iconv v t fuel split_pattern trie (ok (file_of es)) encoding >>= λ r.
          ok (some r.0, r.1))
        ≡ add v t trie (words_of es)
  unfolding add_list add
  add_list-add splits es h encoding plain trie =
      rw
        (
          plain,
          split_lines-file_of es h,
          add_lines-add_pairs splits es h trie,
          add,
          words_of-even es,
        )
        refl
