-- ===== src/Cmd/Color.antt =====
-- cmd/ggrok/color.go: the -color mode and the styling of a text. Texts are ASCII. The environment and
-- whether a stream is a terminal are arguments. The layout of a table (text/tabwriter) is not
-- modelled: a table is the lines that it gives.
pub mod Painted
use ggrok.Prelude.{
  ℕ, ◌+◌, ◌≡◌, refl, Bool, true, false, not, ◌&&◌, List, [], ◌∷◌, ◌++◌, map, Option, none, some,
  length, leb, ltb, ◌==◌, if◌then◌else◌, same_bytes, same_bytes_refl, same_bytes→eq, arith, inl,
  inr, Bool-cases, All,
}
use ggrok.Prelude.Bytes.{codes}
use ggrok.Ca.Serials.{Text, trim_space}

pub data ColorMode : Type 0 where
  color_never color_auto color_always : ColorMode

unfoldable pub to_lower : Text → Text
to_lower [] = []
to_lower (c ∷ cs) =
    let rest = to_lower cs in
    if leb 65 c then (if leb c 90 then (c + 32) ∷ rest else c ∷ rest) else c ∷ rest

unfoldable pub one_of : Text → List Text → Bool
one_of t [] = false
one_of t (x ∷ xs) = if same_bytes t x then true else one_of t xs

abbrev pub auto_names : List Text
auto_names = [] ∷ codes "auto" ∷ codes "true" ∷ codes "1" ∷ codes "yes" ∷ codes "on" ∷ []

abbrev pub always_names : List Text
always_names = codes "always" ∷ codes "force" ∷ []

abbrev pub never_names : List Text
never_names = codes "never" ∷ codes "false" ∷ codes "0" ∷ codes "no" ∷ codes "off" ∷ []

-- `none` is the error.
unfoldable pub parse_color_mode : Text → Option ColorMode
parse_color_mode s =
    let t = to_lower (trim_space s) in
    if one_of t auto_names
    then some color_auto
    else if one_of t always_names
    then some color_always
    else if one_of t never_names
    then some color_never
    else none

unfoldable pub color_mode_from_env : Text → ColorMode
color_mode_from_env [] = color_never
color_mode_from_env (c ∷ cs) = elim (parse_color_mode (c ∷ cs)) [
  | none ↦ color_never
  | some mode ↦ mode
]

-- `String` of a mode that is not nil.
unfoldable pub mode_string : ColorMode → Text
mode_string color_auto = codes "auto"
mode_string color_always = codes "always"
mode_string color_never = codes "never"

-- `Set`: whether it succeeds, and the mode.
unfoldable pub set_mode : Text → ColorMode → Bool × ColorMode
set_mode s m = elim (parse_color_mode s) [ none ↦ (false, m) | some mode ↦ (true, mode) ]

-- NO_COLOR, TERM, and whether the stream is a terminal.
unfoldable pub enabled : ColorMode → Text → Text → Bool → Bool
enabled color_always no_color term terminal = true
enabled color_auto no_color term terminal =
    same_bytes no_color [] && (not (same_bytes term (codes "dumb")) && terminal)
enabled color_never no_color term terminal = false

-- ESC and the opening bracket.
abbrev pub escape : Text
escape = 27 ∷ 91 ∷ []

abbrev pub sgr_reset : Text
sgr_reset = escape ++ codes "0m"

unfoldable pub join_codes : List Text → Text
join_codes [] = []
join_codes (c ∷ []) = c
join_codes (c ∷ d ∷ cs) = c ++ 59 ∷ join_codes (d ∷ cs)

unfoldable pub paint : Bool → Text → List Text → Text
paint false text cs = text
paint true [] cs = []
paint true (c ∷ text) cs = escape ++ (join_codes cs ++ (109 ∷ ((c ∷ text) ++ sgr_reset)))

unfoldable pub bold : Bool → Text → Text
bold on text = paint on text (codes "1" ∷ [])

unfoldable pub dim : Bool → Text → Text
dim on text = paint on text (codes "2" ∷ [])

unfoldable pub red : Bool → Text → Text
red on text = paint on text (codes "31" ∷ [])

unfoldable pub green : Bool → Text → Text
green on text = paint on text (codes "32" ∷ [])

unfoldable pub yellow : Bool → Text → Text
yellow on text = paint on text (codes "33" ∷ [])

unfoldable pub cyan : Bool → Text → Text
cyan on text = paint on text (codes "36" ∷ [])

unfoldable pub highlight : Bool → Text → Text
highlight on text = paint on text (codes "1" ∷ codes "36" ∷ [])

-- The loop of flush over the finished lines, with the styles of the rows; `none` is a nil style.
unfoldable pub style_lines : List Text → List (Option (Text → Text)) → Text
style_lines [] styles = []
style_lines (l ∷ lines) [] = l ++ 10 ∷ style_lines lines []
style_lines (l ∷ lines) (none ∷ styles) = l ++ 10 ∷ style_lines lines styles
style_lines (l ∷ lines) (some f ∷ styles) = f l ++ 10 ∷ style_lines lines styles

-- What is read of a painted text once its escape sequences are dropped.
unfoldable pub unpaint : Bool → Text → Text
unpaint inside [] = []
unpaint true (c ∷ cs) = let rest = unpaint (not (c == 109)) cs in rest
unpaint false (c ∷ cs) =
    let skipped = unpaint true cs in
    let rest = unpaint false cs in if c == 27 then skipped else c ∷ rest
