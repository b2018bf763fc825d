-- ===== src/Tests/Texts.antt =====
-- The texts of src/sync/text.ts at concrete data.
use mineral_obsidian_sync.Base.{true, false, ◌≡◌, refl, [], ◌∷◌}
use mineral_obsidian_sync.Sync.Types.{TextShape, LineEnding}
use mineral_obsidian_sync.Sync.Text.{to_crlf, to_lines, encode_shape, split_lf, terminated}

to_lines_run : to_lines "a\nb" ≡ "a\n" ∷ "b" ∷ []
unfolding to_lines split_lf terminated
to_lines_run = refl

to_crlf_run : to_crlf "a\nb" ≡ "a\r\nb"
unfolding to_crlf
to_crlf_run = refl

abbrev windows : TextShape
windows = record { bom = false; eol = LineEnding.crlf; trailing_newline = true }

encode_run : encode_shape "a\nb" windows ≡ "a\r\nb\r\n"
unfolding encode_shape
encode_run = refl
