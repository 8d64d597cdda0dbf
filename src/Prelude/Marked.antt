-- ===== src/Prelude/Marked.antt =====
-- A code of lists of texts by one text, for concrete instances of packages that write values as
-- texts: "1" before each character and "0" behind each text. A number is a text of that length.
use shellcn.Prelude.{
  ℕ, zero, suc, ◌≡◌, refl, ap, ◌∙◌, String, List, [], ◌∷◌, ◌==◌, nat_eq, if◌then◌else◌,
}
use Prim.Native.Char.{Char, code}
use Prim.Native.String.{[] as end_text, ◌∷◌ as char_then}

unfoldable pub marked_text : String → String → String
marked_text end_text rest = char_then "0" rest
marked_text (char_then c s) rest = char_then "1" (char_then c (marked_text s rest))

unfoldable pub marked : List String → String
unfolding marked_text
marked [] = ""
marked (w ∷ ws) = marked_text w (marked ws)

unfoldable pub onto_first : Char → List String → List String
onto_first c [] = []
onto_first c (w ∷ ws) = char_then c w ∷ ws

unfoldable pub unmarked : String → List String
unfolding onto_first
unmarked end_text = []
unmarked (char_then c end_text) = if code c == 48 then "" ∷ [] else []
unmarked (char_then c (char_then d s)) =
    let here = unmarked (char_then d s) in
    let there = unmarked s in if code c == 48 then "" ∷ here else onto_first d there

unmarked-marked_text : (w s : String) → unmarked (marked_text w s) ≡ w ∷ unmarked s
unfolding unmarked marked_text onto_first
unmarked-marked_text end_text end_text = refl
unmarked-marked_text end_text (char_then c s) = refl
unmarked-marked_text (char_then c w) s = ap (onto_first c) (unmarked-marked_text w s)

pub unmarked-marked : (ws : List String) → unmarked (marked ws) ≡ ws
unfolding unmarked marked
unmarked-marked [] = refl
unmarked-marked (w ∷ ws) = unmarked-marked_text w (marked ws) ∙ ap (λ l. w ∷ l) (unmarked-marked ws)

unfoldable pub tally_marks : ℕ → String
tally_marks zero = ""
tally_marks (suc n) = char_then "1" (tally_marks n)

unfoldable pub tally : String → ℕ
tally end_text = 0
tally (char_then c s) = suc (tally s)

pub tally-tally_marks : (n : ℕ) → tally (tally_marks n) ≡ n
unfolding tally tally_marks
tally-tally_marks zero = refl
tally-tally_marks (suc n) = ap (λ m. suc m) (tally-tally_marks n)
