-- ===== src/Rules/Text.antt =====
-- The text functions of internal/rules/engine.go, over runes, and those of Go's standard library
-- that they call. The Unicode tables and the regular expressions are parameters.
use tg_guard_bot.Common.{
  leb, if◌then◌else◌, Option, ◌∷◌, Bool, List, true, ℕ, ◌&&◌, false, some, ◌-◌, ◌||◌, [], none,
  ◌==◌,
}
use tg_guard_bot.Domain.Settings.{Text}

-- `strings.HasPrefix`.
unfoldable pub has_prefix : List ℕ → List ℕ → Bool
has_prefix s [] = true
has_prefix [] (w ∷ ws) = false
has_prefix (c ∷ cs) (w ∷ ws) = (c == w) && has_prefix cs ws

-- `strings.Contains`.
unfoldable pub contains_text : List ℕ → List ℕ → Bool
unfolding has_prefix
contains_text [] w = has_prefix [] w
contains_text (c ∷ cs) w = has_prefix (c ∷ cs) w || contains_text cs w

-- `contains` of engine.go: one of the words occurs.
unfoldable pub contains : Text → List Text → Bool
unfolding contains_text
contains s [] = false
contains s (w ∷ ws) = contains_text s w || contains s ws

-- `==` on two texts.
unfoldable pub text_eq : List ℕ → List ℕ → Bool
text_eq [] [] = true
text_eq (a ∷ as') (b ∷ bs) = (a == b) && text_eq as' bs
text_eq _ _ = false

-- `strings.HasSuffix`.
unfoldable pub has_suffix : List ℕ → List ℕ → Bool
unfolding text_eq
has_suffix [] w = text_eq [] w
has_suffix (c ∷ cs) w = text_eq (c ∷ cs) w || has_suffix cs w

-- `unicode.IsSpace`: the white-space runes of Latin-1 and beyond, as Go's tables list them.
unfoldable pub is_space : ℕ → Bool
is_space c =
    (leb 9 c && leb c 13)
    || (c == 32
        || (c == 0x85
            || (c == 0xa0
                || (c == 0x1680
                    || ((leb 0x2000 c && leb c 0x200a)
                        || (c == 0x2028
                            || (c == 0x2029 || (c == 0x202f || (c == 0x205f || c == 0x3000)))))))))

unfoldable pub trim_left : Text → Text
trim_left [] = []
trim_left (c ∷ cs) = if is_space c then trim_left cs else c ∷ cs

-- A rune in front of what is left of a trimmed text.
abbrev pub keep_rune : ℕ → Text → Text
keep_rune c [] = if is_space c then [] else c ∷ []
keep_rune c (d ∷ ds) = c ∷ d ∷ ds

unfoldable pub trim_right : Text → Text
trim_right [] = []
trim_right (c ∷ cs) = keep_rune c (trim_right cs)

-- `strings.TrimSpace`.
unfoldable pub trim_space : Text → Text
unfolding trim_left trim_right
trim_space t = trim_right (trim_left t)

abbrev pub is_blank : Text → Bool
is_blank t = text_eq (trim_space t) []

-- A rune in front of the first of the pieces.
abbrev pub join_head : ℕ → List Text → List Text
join_head c [] = (c ∷ []) ∷ []
join_head c (t ∷ ts) = (c ∷ t) ∷ ts

-- `strings.Split` at a rune.
unfoldable pub split : ℕ → Text → List Text
split sep [] = [] ∷ []
split sep (c ∷ cs) = let rest = split sep cs in if c == sep then [] ∷ rest else join_head c rest

-- The tables of the package `unicode` that `Clean` reads, and the regular expressions of the
-- package `regexp`: `matches` compiles a pattern and searches a text; it is false where the pattern
-- does not compile.
pub record Unicode : Type 0 where
  pub is_format : ℕ → Bool
  pub to_lower : ℕ → ℕ
  -- `strings.EqualFold`
  pub equal_fold : Text → Text → Bool

-- The function that `Clean` maps over the runes: `none` drops the rune.
unfoldable pub fold_rune : Unicode → ℕ → Option ℕ
fold_rune u r =
    if u.is_format r
    then none
    else some (u.to_lower (if leb 0xff01 r && leb r 0xff5e then r - 0xfee0 else r))

-- `strings.Map`.
unfoldable pub map_runes : (ℕ → Option ℕ) → List ℕ → List ℕ
map_runes f [] = []
map_runes f (c ∷ cs) = elim (f c) [ none ↦ map_runes f cs | some d ↦ d ∷ map_runes f cs ]

-- `strings.Join(strings.Fields(s), " ")`: the words of the text with one space between two. The
-- flags say whether a word has been written, and whether a space is owed before the next rune.
unfoldable pub join_fields : Bool → Bool → List ℕ → List ℕ
unfolding is_space
join_fields begun owed [] = []
join_fields begun owed (c ∷ cs) = elim (is_space c) [
  | true ↦ join_fields begun begun cs
  | false ↦ if owed then 32 ∷ c ∷ join_fields true false cs else c ∷ join_fields true false cs
]

unfoldable pub clean : Unicode → Text → Text
unfolding fold_rune map_runes join_fields
clean u s = join_fields false false (map_runes (fold_rune u) s)
