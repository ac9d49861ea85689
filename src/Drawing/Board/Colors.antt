-- ===== src/Drawing/Board/Colors.antt =====
-- The colors of the pen.
use disquisition.Common.{
  ℕ, ◌-◌, min, Option, none, some, [], ◌∷◌, text_eq, nat_eq, ◌==◌, if◌then◌else◌, get_or,
}
use disquisition.Common.Int.{ℤ, pos, negsuc, int_eq}
use disquisition.Protocol.Records.{ScreenDraw, pen_color_count}
use disquisition.Drawing.Board.{ScreenDrawing}

abbrev pub screen_pen_color : ℕ → ℕ
screen_pen_color index =
    get_or (0xff5470 ∷ 0xffcf5a ∷ 0x67e8a5 ∷ 0x62cfff ∷ 0xc49bff ∷ 0xffffff ∷ []) index 0xffffff

abbrev color_index : ℤ → ℕ
color_index (pos n) = min n (pen_color_count - 1)
color_index (negsuc n) = 0

unfoldable pub screen_segment_color : ScreenDraw → ℕ
screen_segment_color s = elim s.rgb [
  | pos rgb ↦ rgb
  | negsuc _ ↦ screen_pen_color (color_index s.color)
]

-- A color that is not valid is `none`.
unfoldable pub set_chat_color : Option ℕ → ScreenDrawing → ScreenDrawing
set_chat_color none b = b
set_chat_color (some rgb) b = record b { chat_color = rgb }

unfoldable pub set_custom_color : Option ℕ → ScreenDrawing → ScreenDrawing
set_custom_color none b = b
set_custom_color (some rgb) b = record b { custom_color = some rgb; color = pos pen_color_count }

abbrev own_color : ScreenDrawing → ℤ → ℕ
own_color b (negsuc n) = b.chat_color
own_color b (pos n) = screen_pen_color (min n (pen_color_count - 1))

unfoldable pub pen_color : ScreenDrawing → ℕ
pen_color b = elim b.custom_color [
  | none ↦ own_color b b.color
  | some rgb ↦ if b.color == pos pen_color_count then rgb else own_color b b.color
]

-- `qBound(-1, color, kPenColorCount - 1)`
abbrev bounded_color : ℤ → ℤ
bounded_color (pos n) = pos (min n (pen_color_count - 1))
bounded_color (negsuc n) = negsuc 0

unfoldable pub set_color : ℤ → ScreenDrawing → ScreenDrawing
set_color color b = record b { color = bounded_color color }
