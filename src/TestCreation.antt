-- ===== src/TestCreation.antt =====
-- `describes_test_creation` of src/local_agent_orchestrator/services/plan_validation.py: the search for
-- `\b(?:add|create|write|implement|author|generate|build)\b[^.\n]{0,100}\btests?\b`, in any case.
-- The character classes are those of ASCII text.
use local_ai_workestra.Base.{
  ℕ, zero, suc, ◌+◌, ◌≡◌, refl, Bool, true, false, not, ◌&&◌, ◌||◌, Option, none, some, List, [],
  ◌∷◌, leb, ◌==◌, if◌then◌else◌, Text, codes,
}

-- `\w`
is_word : ℕ → Bool
is_word c =
    (leb b'a' c && leb c b'z')
    || (leb b'A' c && leb c b'Z')
    || (leb b'0' c && leb c b'9')
    || c == b'_'

to_lower : ℕ → ℕ
to_lower c = if leb b'A' c && leb c b'Z' then c + 32 else c

-- The rest of a text after a word, which is given in small letters; `none` if it does not begin so.
strip_word : Text → Text → Option Text
unfolding to_lower
strip_word [] s = some s
strip_word (w ∷ ws) [] = none
strip_word (w ∷ ws) (c ∷ s) = let rest = strip_word ws s in if to_lower c == w then rest else none

-- Whether a text goes on with a word character; so a word that ends there ends at `\b`.
goes_on : Text → Bool
unfolding is_word
goes_on [] = false
goes_on (c ∷ s) = is_word c

-- `tests?\b`
test_word : Text → Bool
unfolding strip_word goes_on
test_word s = elim (strip_word (codes "test") s) [
  | none ↦ false
  | some rest ↦
      not (goes_on rest)
      || elim (strip_word (codes "s") rest) [ none ↦ false | some rest' ↦ not (goes_on rest') ]
]

-- `[^.\n]{0,limit}\btests?\b`. `after_word` says whether the character before is a word character:
-- `test` begins with one, so it begins at `\b` where that is not so.
gap_then_test : ℕ → Bool → Text → Bool
unfolding test_word
gap_then_test limit after_word [] = false
gap_then_test zero after_word (c ∷ s) = not after_word && test_word (c ∷ s)
gap_then_test (suc limit) after_word (c ∷ s) =
    (not after_word && test_word (c ∷ s))
    || (not (c == b'.') && not (c == 10) && gap_then_test limit (is_word c) s)

abbrev verbs : List Text
verbs =
    codes "add"
    ∷ codes "create"
    ∷ codes "write"
    ∷ codes "implement"
    ∷ codes "author"
    ∷ codes "generate"
    ∷ codes "build"
    ∷ []

-- One of the verbs as a whole word, and then the rest of the pattern.
verb_then_test : List Text → Text → Bool
unfolding gap_then_test
verb_then_test [] s = false
verb_then_test (v ∷ vs) s =
    elim (strip_word v s) [
      | none ↦ false
      | some rest ↦ not (goes_on rest) && gap_then_test 100 true rest
    ]
    || verb_then_test vs s

search_from : Bool → Text → Bool
unfolding verb_then_test
search_from after_word [] = false
search_from after_word (c ∷ s) =
    (not after_word && verb_then_test verbs (c ∷ s)) || search_from (is_word c) s

unfoldable pub describes_test_creation : Text → Bool
unfolding search_from
describes_test_creation description = search_from false description

finds_plural : describes_test_creation (codes "Please WRITE the unit tests") ≡ true
unfolding describes_test_creation
finds_plural = refl

stops_at_dot : describes_test_creation (codes "add x. Run test") ≡ false
unfolding describes_test_creation
stops_at_dot = refl

needs_whole_word : describes_test_creation (codes "add contests, latest testing") ≡ false
unfolding describes_test_creation
needs_whole_word = refl
