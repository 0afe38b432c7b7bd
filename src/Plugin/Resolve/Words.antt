-- ===== src/Plugin/Resolve/Words.antt =====
-- cmd/protoc-gen-go-jet/resolve.go: toSnake, on names that are written as words and acronyms.
use protoc_gen_go_jet.Common.{
  ℕ, Text, codes, Bool, true, false, List, [], ◌∷◌, ◌++◌, Option, none, some, map, is_empty,
  append-nil, if◌then◌else◌, ◌≡◌, refl, sym, ◌∙◌, ap, All, arith,
}
use protoc_gen_go_jet.Plugin.Identifier.{is_upper, is_lower, to_lower_ascii, join_texts}
use protoc_gen_go_jet.Plugin.Resolve.{separated, next_lower, snake_from, to_snake}

-- A word of a name, a capital and small letters, with the acronym before it, if there is one:
-- `LLMProvider` is `LLM` and `Provider`.
pub record Piece : Type 0 where
  pub acronym : Text
  pub first : ℕ
  pub small : Text

abbrev AreCapitals : Text → Type 0
AreCapitals s = All (λ c. is_upper c ≡ true) s

abbrev AreSmall : Text → Type 0
AreSmall s = All (λ c. is_lower c ≡ true) s

abbrev pub IsPiece : Piece → Type 0
IsPiece p =
    AreCapitals p.acronym
    × (is_upper p.first ≡ true)
    × (is_empty p.small ≡ false)
    × AreSmall p.small

-- The name: its pieces, and the acronym that it may end in.
abbrev pub spelled : List Piece → Text → Text
spelled [] final = final
spelled (p ∷ ps) final = p.acronym ++ (p.first ∷ (p.small ++ spelled ps final))

abbrev lower : Text → Text
lower s = map to_lower_ascii s

abbrev unless_empty : Text → List Text → List Text
unless_empty s rest = if is_empty s then rest else lower s ∷ rest

-- Its words, in small letters.
abbrev pub words_of : List Piece → Text → List Text
words_of [] final = unless_empty final []
words_of (p ∷ ps) final = unless_empty p.acronym (lower (p.first ∷ p.small) ∷ words_of ps final)

abbrev last : ℕ → Text → ℕ
last c [] = c
last c (d ∷ s) = last d s

last-All : (P : ℕ → Type 0) (c : ℕ) (s : Text) → P c → All P s → P (last c s)
last-All P c [] p h = p
last-All P c (d ∷ s) p (q, h) = last-All P d s q h

abbrev opened : Option ℕ → Bool
opened none = false
opened (some p) = true

abbrev glue : Bool → Text
glue false = []
glue true = codes "_"

-- The words, an underscore before each but the first.
abbrev spaced : Bool → List Text → Text
spaced inside [] = []
spaced inside (w ∷ ws) = glue inside ++ (w ++ spaced true ws)

spaced-join : (ws : List Text) → spaced false ws ≡ join_texts (codes "_") ws
unfolding join_texts
spaced-join [] = refl
spaced-join (w ∷ []) = append-nil w
spaced-join (w ∷ v ∷ ws) = ap (λ t. w ++ (95 ∷ t)) (spaced-join (v ∷ ws))

-- A new word begins after a small letter, and at the start.
abbrev IsReady : Option ℕ → Type 0
IsReady none = Unit
IsReady (some p) = is_lower p ≡ true

capital_next :
    (s rest : Text) → AreCapitals s → next_lower rest ≡ false → next_lower (s ++ rest) ≡ false
capital_next [] rest h n = n
capital_next (c ∷ s) rest (p, h) n = ground arith

same_word :
    (prev : Option ℕ) (r : ℕ) (s : Text)
    → separated prev r s ≡ false
    → snake_from prev (r ∷ s) ≡ to_lower_ascii r ∷ snake_from (some r) s
unfolding snake_from
same_word prev r s h = rw h refl

new_word :
    (prev : Option ℕ) (r : ℕ) (s : Text)
    → separated prev r s ≡ true
    → snake_from prev (r ∷ s) ≡ 95 ∷ to_lower_ascii r ∷ snake_from (some r) s
unfolding snake_from
new_word prev r s h = rw h refl

snake_from-capitals :
    (p : ℕ) (s rest : Text)
    → is_upper p ≡ true
    → AreCapitals s
    → next_lower rest ≡ false
    → snake_from (some p) (s ++ rest) ≡ lower s ++ snake_from (some (last p s)) rest
snake_from-capitals p [] rest u h n = refl
snake_from-capitals p (c ∷ s) rest u (v, h) n =
    let no_next = capital_next s rest h n in
    let not_small : is_lower p ≡ false = ground arith in
    same_word (some p) c (s ++ rest) (rw (not_small, no_next) (ground arith))
    ∙ ap (λ t. to_lower_ascii c ∷ t) (snake_from-capitals c s rest v h n)

snake_from-small :
    (p : ℕ) (s rest : Text)
    → AreSmall s
    → snake_from (some p) (s ++ rest) ≡ lower s ++ snake_from (some (last p s)) rest
snake_from-small p [] rest h = refl
snake_from-small p (c ∷ s) rest (v, h) =
    let not_capital : is_upper c ≡ false = ground arith in
    same_word (some p) c (s ++ rest) (rw not_capital refl)
    ∙ ap (λ t. to_lower_ascii c ∷ t) (snake_from-small c s rest h)

snake_from-acronym :
    (prev : Option ℕ) (c : ℕ) (s rest : Text)
    → IsReady prev
    → is_upper c ≡ true
    → AreCapitals s
    → next_lower rest ≡ false
    → snake_from prev (c ∷ (s ++ rest))
      ≡ glue (opened prev) ++ (lower (c ∷ s) ++ snake_from (some (last c s)) rest)
snake_from-acronym none c s rest r u h n =
    same_word none c (s ++ rest) refl
    ∙ ap (λ t. to_lower_ascii c ∷ t) (snake_from-capitals c s rest u h n)
snake_from-acronym (some p) c s rest r u h n =
    new_word (some p) c (s ++ rest) (rw (u, r) refl)
    ∙ ap (λ t. 95 ∷ to_lower_ascii c ∷ t) (snake_from-capitals c s rest u h n)

snake_from-word :
    (prev : Option ℕ) (c : ℕ) (s rest : Text)
    → is_upper c ≡ true
    → is_empty s ≡ false
    → AreSmall s
    → snake_from prev (c ∷ (s ++ rest))
      ≡ glue (opened prev) ++ (lower (c ∷ s) ++ snake_from (some (last c s)) rest)
snake_from-word prev c [] rest u e h = absurd (cc e)
snake_from-word none c (d ∷ s) rest u e h =
    same_word none c (d ∷ (s ++ rest)) refl
    ∙ ap (λ t. to_lower_ascii c ∷ t) (snake_from-small c (d ∷ s) rest h)
snake_from-word (some p) c (d ∷ s) rest u e h =
    new_word (some p) c (d ∷ (s ++ rest)) (rw (u, h.0) (ground arith))
    ∙ ap (λ t. 95 ∷ to_lower_ascii c ∷ t) (snake_from-small c (d ∷ s) rest h)

last-small : (c : ℕ) (s : Text) → is_empty s ≡ false → AreSmall s → is_lower (last c s) ≡ true
last-small c [] e h = absurd (cc e)
last-small c (d ∷ s) e (p, h) = last-All (λ x. is_lower x ≡ true) d s p h

-- An acronym, if there is one, before a capital that a small letter follows.
snake_from-front :
    (prev : Option ℕ) (a : Text) (c : ℕ) (rest w : Text) (ws : List Text)
    → IsReady prev
    → AreCapitals a
    → is_upper c ≡ true
    → ((q : Option ℕ) → snake_from q (c ∷ rest) ≡ glue (opened q) ++ (w ++ spaced true ws))
    → snake_from prev (a ++ (c ∷ rest)) ≡ spaced (opened prev) (unless_empty a (w ∷ ws))
snake_from-front prev [] c rest w ws r h u body = body prev
snake_from-front prev (d ∷ a) c rest w ws r (v, h) u body =
    snake_from-acronym prev d a (c ∷ rest) r v h (ground arith)
    ∙ ap (λ t. glue (opened prev) ++ (lower (d ∷ a) ++ t)) (body (some (last d a)))

snake_from-spelled :
    (prev : Option ℕ) (ps : List Piece) (final : Text)
    → IsReady prev
    → All IsPiece ps
    → AreCapitals final
    → snake_from prev (spelled ps final) ≡ spaced (opened prev) (words_of ps final)
snake_from-spelled prev [] [] r h f = (unfold snake_from in refl)
snake_from-spelled prev [] (c ∷ final) r h (u, f) =
    ap (λ t. snake_from prev (c ∷ t)) (sym (append-nil final))
    ∙ snake_from-acronym prev c final [] r u f refl
    ∙ (unfold snake_from in refl)
snake_from-spelled prev (p ∷ ps) final r ((a, u, e, h), hs) f =
    let ready = last-small p.first p.small e h in
    let rest = snake_from-spelled (some (last p.first p.small)) ps final ready hs f in
    snake_from-front prev p.acronym p.first (p.small ++ spelled ps final)
      (lower (p.first ∷ p.small)) (words_of ps final) r a u
      (λ q.
        snake_from-word q p.first p.small (spelled ps final) u e h
        ∙ ap (λ t. glue (opened q) ++ (lower (p.first ∷ p.small) ++ t)) rest)

-- A name of capitals and small letters that begins with a capital becomes its words in small letters,
-- with one underscore between two of them. A word is a capital with the small letters behind it, or an
-- acronym: the capitals before such a word, or those at the end of the name.
pub to_snake-spelled :
    (ps : List Piece) (final : Text)
    → All IsPiece ps
    → AreCapitals final
    → to_snake (spelled ps final) ≡ join_texts (codes "_") (words_of ps final)
unfolding to_snake
to_snake-spelled ps final h f =
    snake_from-spelled none ps final tt h f ∙ spaced-join (words_of ps final)
