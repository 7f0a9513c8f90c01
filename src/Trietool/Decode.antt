-- ===== src/Trietool/Decode.antt =====
-- `decode` of src/bin/trietool/utils.rs, by which a list of words in another character set is read.
use libdatrie_rs.Common.{
  ℕ, zero, suc, true, false, ◌+◌, ◌-◌, ◌≡◌, refl, ap, ◌∙◌, List, [], ◌∷◌, ◌++◌, arith, leb, length,
  take, drop,
}
use mathlib.Core.List.{append-nil}
use libdatrie_rs.Common.Run.{Run, ok, out_of_fuel, err, invalid_data}

-- What `Iconv::convert` comes to: the converter, how many bytes it has read, and what it has written.
pub data Converted (S : Type 0) : Type 0 where
  converted : S → ℕ → List ℕ → Converted S
  not_sufficient_output : S → ℕ → List ℕ → Converted S
  failed : Converted S

-- What the code uses of the crate iconv: a converter with a state.
pub record Iconv : Type 1 where
  pub State : Type 0
  pub reset : State → State
  pub convert : State → List ℕ → ℕ → Converted State

abbrev pub zeros : ℕ → List ℕ
zeros zero = []
zeros (suc n) = 0 ∷ zeros n

-- `buf[written..]` begins with these bytes.
abbrev pub fill : List ℕ → ℕ → List ℕ → List ℕ
fill buf written out = take written buf ++ (out ++ drop (written + length out) buf)

module _ (iconv : Iconv) (input : List ℕ) where
  -- The loop of `decode`, in a release build. Any other error of the crate is `invalid_data`.
  unfoldable pub decode_loop : ℕ → iconv.State → List ℕ → ℕ → ℕ → Run (iconv.State × List ℕ)
  decode_loop zero state buf read written = out_of_fuel
  decode_loop (suc fuel) state buf read written =
      elim (iconv.convert state (drop read input) (length buf - written)) [
        | converted state n out ↦
            (let buf = fill buf written out in
              elim (leb (length input) (read + n)) [
                | true ↦ ok (state, take (written + length out) buf)
                | false ↦ decode_loop fuel state buf (read + n) (written + length out)
              ])
        | not_sufficient_output state n out ↦
            decode_loop fuel state (fill buf written out ++ zeros (length out)) (read + n)
              (written + length out)
        | failed ↦ err invalid_data
      ]

  unfoldable pub decode : ℕ → iconv.State → Run (iconv.State × List ℕ)
  decode fuel state = decode_loop fuel (iconv.reset state) (zeros (length input)) 0 0

  length-zeros : (n : ℕ) → length (zeros n) ≡ n
  length-zeros zero = refl
  length-zeros (suc n) = ap suc (length-zeros n)

  stays :
      (fuel : ℕ) (state : iconv.State)
      → iconv.convert state input (length input) ≡ not_sufficient_output state 0 []
      → decode_loop fuel state (zeros (length input)) 0 0 ≡ out_of_fuel
  unfolding decode_loop
  stays zero state h = refl
  stays (suc fuel) state h =
      let room : length (zeros (length input)) - 0 ≡ length input =
        omega (arith, length-zeros (length input)) in
      let same : iconv.convert state input (length (zeros (length input)) - 0)
          ≡ not_sufficient_output state 0 [] =
        ap (iconv.convert state input) room ∙ h in
      rw (decode_loop, same, append-nil (zeros (length input))) (stays fuel state h)

  -- Where the output for the first character of the input is longer than the whole input, so that
  -- Iconv::convert reads and writes nothing, decode resizes its buffer by the 0 bytes that were
  -- written, and never ends.
  pub decode-endless :
      (state : iconv.State)
      → iconv.convert (iconv.reset state) input (length input)
        ≡ not_sufficient_output (iconv.reset state) 0 []
      → (fuel : ℕ) → decode fuel state ≡ out_of_fuel
  unfolding decode
  decode-endless state h fuel = stays fuel (iconv.reset state) h
