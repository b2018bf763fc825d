-- ===== src/Sync/Text/RoundTrips.antt =====
-- What the normal forms of src/sync/text.ts keep of a text.
use Prim.Native.Char.{Char}
use Prim.Native.String.compare
use text.Mathlib.TextEquality.{Char-path}
use text.Mathlib.TextLemmas.{cons-append, nil-append, append-nil}
use mineral_obsidian_sync.Base.{
  String, ◌<>◌, Bool, true, false, ◌&&◌, ◌≡◌, refl, ap, sym, ◌∙◌, List, [], ◌∷◌, if◌then◌else◌,
  is_nonempty, arith,
}
use mineral_obsidian_sync.Sync.Text.{
  is_lf, is_cr, carriage_return, to_crlf, normalize_to_lf, split_lf, terminated, to_lines,
  from_lines, before_first, line_feed,
}

-- The text begins with a line feed.
abbrev starts_lf : String → Bool
starts_lf String.[] = false
starts_lf (String.◌∷◌ c s) = is_lf c

to_crlf-starts : (s : String) → starts_lf (to_crlf s) ≡ false
unfolding to_crlf
to_crlf-starts String.[] = refl
to_crlf-starts (String.◌∷◌ c s) = chosen (is_lf c) refl
  where
    chosen :
        (b : Bool)
        → is_lf c ≡ b
        → starts_lf (
            if b
            then String.◌∷◌ carriage_return (String.◌∷◌ c (to_crlf s))
            else String.◌∷◌ c (to_crlf s))
          ≡ false
    chosen true e = refl
    chosen false e = e

normalize-cons :
    (c : Char) (s : String)
    → (is_cr c && starts_lf s) ≡ false
    → normalize_to_lf (String.◌∷◌ c s) ≡ String.◌∷◌ c (normalize_to_lf s)
unfolding normalize_to_lf
normalize-cons c String.[] e = refl
normalize-cons c (String.◌∷◌ d s) e = ground (arith, e)

-- Reading CRLF line ends back gives the text that was written with them.
pub normalize_to_lf-to_crlf : (text : String) → normalize_to_lf (to_crlf text) ≡ text
unfolding to_crlf normalize_to_lf
normalize_to_lf-to_crlf String.[] = refl
normalize_to_lf-to_crlf (String.◌∷◌ c s) = chosen (is_lf c) refl (normalize_to_lf-to_crlf s)
  where
    chosen :
        (b : Bool)
        → is_lf c ≡ b
        → normalize_to_lf (to_crlf s) ≡ s
        → normalize_to_lf (
            if b
            then String.◌∷◌ carriage_return (String.◌∷◌ c (to_crlf s))
            else String.◌∷◌ c (to_crlf s))
          ≡ String.◌∷◌ c s
    chosen true e k = ground (arith, e, k, normalize-cons c (to_crlf s), to_crlf-starts s)
    chosen false e k =
        normalize-cons c (to_crlf s) (ground (arith, to_crlf-starts s)) ∙ ap (λ t. String.◌∷◌ c t) k

is_lf-line_feed : (c : Char) → is_lf c ≡ true → c ≡ line_feed
is_lf-line_feed c e = Char-path c line_feed (ground (arith, e))

-- A split text has a first part.
has_first : (s : String) → (first : String) × ((rest : List String) × (split_lf s ≡ first ∷ rest))
unfolding split_lf
has_first String.[] = ("", ([], refl))
has_first (String.◌∷◌ c s) = chosen (is_lf c) (has_first s)
  where
    chosen :
        (b : Bool)
        → (first : String) × ((rest : List String) × (split_lf s ≡ first ∷ rest))
        → (first : String) × ((rest : List String) × ((if b
                then "" ∷ split_lf s
                else before_first c (split_lf s))
              ≡ first ∷ rest))
    chosen true h = ("", (split_lf s, refl))
    chosen false (first, (rest, e)) =
        (String.◌∷◌ c first, (rest, ap (λ parts. before_first c parts) e))

nonempty : (c : Char) (s : String) → is_nonempty (String.◌∷◌ c s) ≡ true
nonempty c s = rw (compare.cons-nil c s) refl

lines-before_first :
    (c : Char) (first : String) (rest : List String)
    → from_lines (terminated (String.◌∷◌ c first ∷ rest))
      ≡ String.◌∷◌ c (from_lines (terminated (first ∷ rest)))
unfolding terminated from_lines
lines-before_first c first (next ∷ parts) =
    ap (λ t. t <> from_lines (terminated (next ∷ parts))) (cons-append c first "\n")
    ∙ cons-append c (first <> "\n") (from_lines (terminated (next ∷ parts)))
lines-before_first c String.[] [] = ground (arith, nonempty c "", append-nil (String.◌∷◌ c ""))
lines-before_first c (String.◌∷◌ d first) [] = ground (
  arith,
  nonempty c (String.◌∷◌ d first),
  nonempty d first,
  append-nil (String.◌∷◌ c (String.◌∷◌ d first)),
  append-nil (String.◌∷◌ d first),
)

lines-newline :
    (first : String) (rest : List String)
    → from_lines (terminated ("" ∷ first ∷ rest))
      ≡ String.◌∷◌ line_feed (from_lines (terminated (first ∷ rest)))
unfolding terminated from_lines
lines-newline first rest =
    cons-append line_feed "" (from_lines (terminated (first ∷ rest)))
    ∙ ap (λ t. String.◌∷◌ line_feed t) (nil-append (from_lines (terminated (first ∷ rest))))

-- Joining the lines of a text gives the text: the line model loses nothing, the final terminator
-- included.
pub from_lines-to_lines : (text : String) → from_lines (to_lines text) ≡ text
unfolding to_lines split_lf terminated from_lines
from_lines-to_lines String.[] = refl
from_lines-to_lines (String.◌∷◌ c s) = chosen (is_lf c) refl (has_first s) (from_lines-to_lines s)
  where
    chosen :
        (b : Bool)
        → is_lf c ≡ b
        → (first : String) × ((rest : List String) × (split_lf s ≡ first ∷ rest))
        → from_lines (terminated (split_lf s)) ≡ s
        → from_lines (terminated (if b then "" ∷ split_lf s else before_first c (split_lf s)))
          ≡ String.◌∷◌ c s
    chosen true e (first, (rest, q)) k =
        ap (λ parts. from_lines (terminated ("" ∷ parts))) q
        ∙ lines-newline first rest
        ∙ ap (λ parts. String.◌∷◌ line_feed (from_lines (terminated parts))) (sym q)
        ∙ ap (λ t. String.◌∷◌ line_feed t) k
        ∙ ap (λ d. String.◌∷◌ d s) (sym (is_lf-line_feed c e))
    chosen false e (first, (rest, q)) k =
        ap (λ parts. from_lines (terminated (before_first c parts))) q
        ∙ lines-before_first c first rest
        ∙ ap (λ parts. String.◌∷◌ c (from_lines (terminated parts))) (sym q)
        ∙ ap (λ t. String.◌∷◌ c t) k
