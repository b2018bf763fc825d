-- ===== src/Sync/Text.antt =====
-- src/sync/text.ts: the line model of a text and the shape in which it is stored.
pub mod RoundTrips
use Prim.Native.Char.{Char, code}
use mineral_obsidian_sync.Base.{
  String, ◌<>◌, Bool, true, false, not, ◌&&◌, List, [], ◌∷◌, Option, none, some, ◌==◌,
  if◌then◌else◌, is_nonempty,
}
use mineral_obsidian_sync.Sync.Types.{TextShape, LineEnding, lf, crlf, mixed}

-- A line feed, a carriage return and the byte order mark.
abbrev pub is_lf : Char → Bool
is_lf c = code c == 10

abbrev pub is_cr : Char → Bool
is_cr c = code c == 13

-- `text.endsWith("\n")`
unfoldable pub ends_with_newline : String → Bool
ends_with_newline String.[] = false
ends_with_newline (String.◌∷◌ c String.[]) = is_lf c
ends_with_newline (String.◌∷◌ c (String.◌∷◌ d s)) = ends_with_newline (String.◌∷◌ d s)

-- `text.slice(0, -1)`
unfoldable pub drop_last_char : String → String
drop_last_char String.[] = String.[]
drop_last_char (String.◌∷◌ c String.[]) = String.[]
drop_last_char (String.◌∷◌ c (String.◌∷◌ d s)) = String.◌∷◌ c (drop_last_char (String.◌∷◌ d s))

abbrev pub carriage_return : Char
carriage_return = "\r"

abbrev pub line_feed : Char
line_feed = "\n"

-- U+FEFF
abbrev pub bom_char : Char
bom_char = "\u{feff}"

-- `text.replace(/\n/g, "\r\n")`
unfoldable pub to_crlf : String → String
to_crlf String.[] = String.[]
to_crlf (String.◌∷◌ c s) =
    let rest = to_crlf s in
    if is_lf c then String.◌∷◌ carriage_return (String.◌∷◌ c rest) else String.◌∷◌ c rest

-- `raw.replace(/\r\n/g, "\n")`
unfoldable pub normalize_to_lf : String → String
normalize_to_lf String.[] = String.[]
normalize_to_lf (String.◌∷◌ c String.[]) = String.◌∷◌ c String.[]
normalize_to_lf (String.◌∷◌ c (String.◌∷◌ d s)) =
    let rest = normalize_to_lf (String.◌∷◌ d s) in
    if is_cr c && is_lf d then rest else String.◌∷◌ c rest

-- The first step of `encodeText` and of `encodeMerged` in src/sync/executor.ts.
unfoldable pub with_trailing_newline : Bool → String → String
unfolding ends_with_newline drop_last_char
with_trailing_newline wanted text =
    if not wanted && ends_with_newline text
    then drop_last_char text
    else if wanted && is_nonempty text && not (ends_with_newline text)
    then text <> "\n"
    else text

abbrev is_crlf : LineEnding → Bool
is_crlf crlf = true
is_crlf _ = false

-- `encodeText` and `encodeMerged`, up to the UTF-8 encoder.
unfoldable pub encode_shape : String → TextShape → String
unfolding with_trailing_newline to_crlf
encode_shape normalized shape =
    let text = with_trailing_newline shape.trailing_newline normalized in
    let lines = if is_crlf shape.eol then to_crlf text else text in
    if shape.bom then String.◌∷◌ bom_char lines else lines

abbrev pub before_first : Char → List String → List String
before_first c [] = []
before_first c (part ∷ parts) = String.◌∷◌ c part ∷ parts

-- `normalizedText.split("\n")`
unfoldable pub split_lf : String → List String
split_lf String.[] = "" ∷ []
split_lf (String.◌∷◌ c s) =
    let rest = split_lf s in if is_lf c then "" ∷ rest else before_first c rest

-- The lines of the parts, each but the last with its terminator; an empty last part is no line.
unfoldable pub terminated : List String → List String
terminated [] = []
terminated (last ∷ []) = if is_nonempty last then last ∷ [] else []
terminated (part ∷ next ∷ parts) = (part <> "\n") ∷ terminated (next ∷ parts)

unfoldable pub to_lines : String → List String
unfolding split_lf terminated
to_lines text = terminated (split_lf text)

-- `lines.join("")`
unfoldable pub from_lines : List String → String
from_lines [] = ""
from_lines (line ∷ lines) = line <> from_lines lines

abbrev or_else {ℓ} : {A : Type ℓ} → Option A → A → A
or_else none x = x
or_else (some y) x = y

abbrev bom_of : Option TextShape → Option Bool
bom_of none = none
bom_of (some s) = some s.bom

abbrev trailing_of : Option TextShape → Option Bool
trailing_of none = none
trailing_of (some s) = some s.trailing_newline

-- A side's line ending, where it is not mixed.
abbrev pure_eol : Option TextShape → Option LineEnding
pure_eol none = none
pure_eol (some s) = elim s.eol [ lf ↦ some lf | crlf ↦ some crlf | mixed ↦ none ]

abbrev base_eol : Option TextShape → LineEnding
base_eol none = lf
base_eol (some s) = elim s.eol [ lf ↦ lf | crlf ↦ crlf | mixed ↦ lf ]

unfoldable pub preferred_shape : (here there base : Option TextShape) → TextShape
preferred_shape here there base = record {
  bom = or_else (bom_of here) (or_else (bom_of there) (or_else (bom_of base) false));
  eol = or_else (pure_eol here) (or_else (pure_eol there) (base_eol base));
  trailing_newline =
      or_else (trailing_of here) (or_else (trailing_of there) (or_else (trailing_of base) true));
}
