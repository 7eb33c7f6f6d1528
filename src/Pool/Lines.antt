-- ===== src/Pool/Lines.antt =====
-- The splitting of received data into lines, which the stratum client and the API server do alike: each
-- '\n' that m_message.find sees ends a line, and what follows the last one stays in m_message.
use etcminer.Prelude.{
  ℕ, ◌≡◌, refl, sym, false, List, [], ◌∷◌, ◌++◌, Text, ◌==◌, if◌then◌else◌, Bool-cases, inl, inr,
}
use mathlib.Core.List.{append-nil, append_assoc}

-- A character in front of the first line, or of the rest where no line ends.
unfoldable pub put_first : ℕ → List Text × Text → List Text × Text
put_first c ([], rest) = ([], c ∷ rest)
put_first c (l ∷ ls, rest) = ((c ∷ l) ∷ ls, rest)

-- The lines that are complete, and the rest.
unfoldable pub take_lines : Text → List Text × Text
take_lines [] = ([], [])
take_lines (c ∷ s) =
    let after = take_lines s in if c == 10 then ([] ∷ after.0, after.1) else put_first c after

-- Chunks of data that arrive one by one, with the rest that m_message keeps between them.
unfoldable pub feed : Text → List Text → List Text × Text
feed rest [] = ([], rest)
feed rest (chunk ∷ chunks) =
    let now = take_lines (rest ++ chunk) in
    let later = feed now.1 chunks in (now.0 ++ later.0, later.1)

unfoldable pub concat : List Text → Text
concat [] = []
concat (t ∷ ts) = t ++ concat ts

-- The lines of a rest and of more data after it.
abbrev join : List Text → List Text × Text → List Text × Text
join ls (more, rest) = (ls ++ more, rest)

-- One character before data that is split already.
character_first :
    (c : ℕ) (s b : Text) (r : List Text × Text)
    → (c == 10) ≡ false
    → take_lines s ≡ r
    → take_lines (s ++ b) ≡ join r.0 (take_lines (r.1 ++ b))
    → put_first c (take_lines (s ++ b))
      ≡ join (put_first c r).0 (take_lines ((put_first c r).1 ++ b))
unfolding put_first take_lines
character_first c s b ([], rest) plain e ih = rw (ih, plain) refl
character_first c s b (l ∷ ls, rest) plain e ih = rw ih refl

take_lines-append :
    (a b : Text) → take_lines (a ++ b) ≡ join (take_lines a).0 (take_lines ((take_lines a).1 ++ b))
unfolding take_lines
take_lines-append [] b = refl
take_lines-append (c ∷ s) b = elim (Bool-cases (c == 10)) [
  | inl e ↦ rw (e, take_lines-append s b) refl
  | inr e ↦ rw e (character_first c s b (take_lines s) e refl (take_lines-append s b))
]

rest_first :
    (c : ℕ) (r : List Text × Text)
    → (c == 10) ≡ false
    → take_lines r.1 ≡ ([], r.1)
    → take_lines (put_first c r).1 ≡ ([], (put_first c r).1)
unfolding put_first take_lines
rest_first c ([], rest) plain ih = rw (plain, ih) refl
rest_first c (l ∷ ls, rest) plain ih = ih

-- No line ends in the rest.
take_lines-rest : (a : Text) → take_lines (take_lines a).1 ≡ ([], (take_lines a).1)
unfolding take_lines
take_lines-rest [] = refl
take_lines-rest (c ∷ s) = elim (Bool-cases (c == 10)) [
  | inl e ↦ rw e (take_lines-rest s)
  | inr e ↦ rw e (rest_first c (take_lines s) e (take_lines-rest s))
]

-- However the data is cut into chunks, the same lines come out in the same order, and the same rest stays,
-- if no line ends in the rest from before.
pub feed-concat :
    (rest : Text) (chunks : List Text)
    → take_lines rest ≡ ([], rest)
    → feed rest chunks ≡ take_lines (rest ++ concat chunks)
unfolding feed concat
feed-concat rest [] open_line = rw (append-nil rest) (sym open_line)
feed-concat rest (chunk ∷ chunks) open_line =
    rw
      (
        sym (append_assoc rest chunk (concat chunks)),
        take_lines-append (rest ++ chunk) (concat chunks),
        feed-concat (take_lines (rest ++ chunk)).1 chunks (take_lines-rest (rest ++ chunk)),
      )
      refl
