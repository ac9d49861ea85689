-- ===== src/Protocol/Records/Erase.antt =====
-- `parseScreenErase` and `screenEraseMessage`.
use disquisition.Common.{
  ℕ, ◌≤◌, ◌≡◌, refl, true, some, List, [], ◌∷◌, map, arith, length, length-drop, drop, All,
}
use disquisition.Protocol.Number.{nat_to_string, max_u32}
use disquisition.Protocol.Frame.{Message}
use disquisition.Protocol.Records.{
  ScreenErase, max_erase_strokes, field, is_kind, drawing_identity, parse_screen_erase,
  screen_erase_message,
}
use disquisition.Protocol.Records.Fields.{
  IsEpoch, parse_epoch-to_string, parse_epoch_sound, parse_strokes-map, parse_strokes_sound,
}

-- A batch of one to 128 strokes.
pub record IsValid (e : ScreenErase) : Type 0 where
  pub sharer : drawing_identity e.sharer ≡ true
  pub author : drawing_identity e.author ≡ true
  pub epoch : IsEpoch e.epoch
  pub strokes : All (λ n. n ≤ max_u32) e.strokes
  pub some_strokes : 1 ≤ length e.strokes
  pub few_strokes : length e.strokes ≤ max_erase_strokes

length-map : (ids : List ℕ) → length (map nat_to_string ids) ≡ length ids
length-map [] = refl
length-map (n ∷ ids) = omega (arith, length-map ids)

-- A valid erase request is read back from its message.
pub parse-screen_erase_message :
    (e : ScreenErase) → IsValid e → parse_screen_erase (screen_erase_message e) ≡ some e
unfolding parse_screen_erase screen_erase_message is_kind
parse-screen_erase_message e v = ground (
  arith,
  length-map e.strokes,
  parse_epoch-to_string e.epoch v.epoch,
  parse_strokes-map e.strokes v.strokes,
)

-- What `parseScreenErase` accepts is a well-formed request of one to 128 strokes.
pub parse_screen_erase_sound :
    (m : Message) (e : ScreenErase) → parse_screen_erase m ≡ some e → IsValid e
unfolding parse_screen_erase
parse_screen_erase_sound m e h = ground (
  arith,
  parse_epoch_sound (field m 1) e.epoch,
  parse_strokes_sound (drop 3 m.fields) e.strokes,
  length-drop 3 m.fields,
)
