-- ===== src/Drawing/Session.antt =====
-- desktop/screen_drawing_session.cpp: the presenter owns the board and tells its viewers, and a viewer follows the
-- presenter. `sendToPeer` appends to what is sent. The board is taken to outlive the session, so that the tests of the
-- pointer to it are left out; a static epoch of the process is part of the state.
pub mod Receive
pub mod Events
pub mod Laws
pub mod History
pub mod Follow
pub mod Authors
pub mod Requests
use disquisition.Common.{
  ℕ, zero, suc, ◌+◌, ◌-◌, ◌*◌, ◌/◌, ◌%◌, ◌^◌, ◌≤◌, ◌<◌, min, max, ◌≡◌, ◌≢◌, ◌↔◌, ◌⊎◌, inl, inr,
  refl, sym, ◌∙◌, ap, ap₂, subst, Bool, true, false, not, ◌&&◌, ◌||◌, Option, none, some, List, [],
  ◌∷◌, ◌++◌, arith, Text, text_eq, nat_eq, text_beq, codes, Eq, ◌==◌, beq_refl, beq_sym, ltb, leb,
  nat_beq, if◌then◌else◌, Bool-cases, Option-cases, ◌>>=◌, ◌>>◌, guard, &&_true, length, take, drop,
  map,
}
use disquisition.Common.Int.{ℤ, pos, negsuc, int_eq}
use disquisition.Common.Sets.{has, include, exclude}
use disquisition.Protocol.Number.{to_string}
use disquisition.Protocol.Frame.{
  MsgType, screen_draw_state, screen_draw, screen_draw_watch, screen_draw_erase, screen_laser,
  Message,
}
use disquisition.Protocol.Records.{
  ScreenDraw, ScreenErase, ScreenLaser, max_draw_segments, max_erase_strokes, is_kind, field,
  parse_epoch, parse_screen_draw, parse_screen_erase, parse_screen_laser, screen_draw_message,
  screen_erase_message, screen_laser_message,
}
use disquisition.Drawing.Board.{
  Tool, ScreenDrawing, set_identity, set_state, set_status, add, remove, drawing_allowed,
  stroke_ids, undo, delete_selection, request_erase, set_banned,
}
use disquisition.Drawing.Board.Lasers.{add_laser, put_away, take_tool}

-- The clock of the board, and the milliseconds since 1970.
pub record Clock : Type 0 where
  pub elapsed : ℕ
  pub wall : ℕ

pub record ScreenDrawingSession : Type 0 where
  pub local_name : Text
  pub sharer : Text
  pub drawing : ScreenDrawing
  pub owner : Bool
  pub watching : Bool
  pub viewers : List Text
  pub banned : List Text
  pub retry : Bool
  pub attempts : ℕ
  pub previous : ℕ
  pub sent : List (Text × Message)

abbrev pub is_banned : ScreenDrawingSession → Text → Bool
is_banned s peer = has peer s.banned

unfoldable pub next_epoch : Clock → ScreenDrawingSession → ℕ
next_epoch c s = max (s.previous + 1) (c.wall * 1000)

abbrev pub send_to_peer : Text → Message → ScreenDrawingSession → ScreenDrawingSession
send_to_peer peer m s = record s { sent = s.sent ++ ((peer, m) ∷ []) }

abbrev pub flag : Bool → Text
flag b = if b then codes "1" else codes "0"

-- `state`
unfoldable pub state_message : Text → ScreenDrawingSession → Message
state_message viewer s = record {
  kind = screen_draw_state;
  fields =
      s.sharer
      ∷ flag s.drawing.enabled
      ∷ to_string s.drawing.epoch
      ∷ (if is_banned s viewer then codes "0" ∷ [] else []);
}

unfoldable pub watch : Bool → ScreenDrawingSession → Message
watch enabled s = record { kind = screen_draw_watch; fields = s.sharer ∷ flag enabled ∷ [] }

-- To each of some recipients.
abbrev pub for_each : List Text → (Text → Message) → List (Text × Message)
for_each [] f = []
for_each (peer ∷ peers) f = (peer, f peer) ∷ for_each peers f

unfoldable pub broadcast : Message → ScreenDrawingSession → ScreenDrawingSession
broadcast m s = record s { sent = s.sent ++ for_each s.viewers (λ _. m) }

abbrev pub with_drawing : ScreenDrawing → ScreenDrawingSession → ScreenDrawingSession
with_drawing b s = record s { drawing = b }

unfoldable pub reset : Clock → Bool → ScreenDrawingSession → ScreenDrawingSession
reset c enabled s =
    let epoch = next_epoch c s in
    let b = set_state enabled (pos epoch) (set_status [] s.drawing) in
    let next = record s { drawing = b; previous = epoch } in
    record next { sent = next.sent ++ for_each next.viewers (λ viewer. state_message viewer next) }

abbrev pub history_messages : List ScreenDraw → List Message
history_messages [] = []
history_messages (d ∷ ds) = screen_draw_message d true ∷ history_messages ds

-- What a viewer is sent to catch up.
unfoldable pub snapshot : Text → ScreenDrawingSession → List Message
snapshot viewer s = state_message viewer s ∷ history_messages s.drawing.segments

abbrev pub all_to : Text → List Message → List (Text × Message)
all_to peer [] = []
all_to peer (m ∷ ms) = (peer, m) ∷ all_to peer ms

unfoldable pub send_snapshot : Text → ScreenDrawingSession → ScreenDrawingSession
send_snapshot viewer s = record s { sent = s.sent ++ all_to viewer (snapshot viewer s) }

-- `setBanned` of the session.
unfoldable pub ban_peer : Text → Bool → ScreenDrawingSession → ScreenDrawingSession
ban_peer peer banned s =
    let next = record s {
      banned = if banned then include peer s.banned else exclude peer s.banned;
    } in
    if not s.owner
      || (nat_beq (length peer) 0
          || (peer == s.local_name || (if is_banned s peer then banned else not banned)))
    then s
    else if has peer s.viewers
    then send_snapshot peer next
    else next

unfoldable pub accept : Clock → ScreenDraw → ScreenDrawingSession → ScreenDrawingSession
accept c segment s =
    let after = add c.elapsed segment s.drawing in
    let next = with_drawing after s in
    if not s.drawing.enabled || not (segment.epoch == s.drawing.epoch)
    then s
    else if leb max_draw_segments (length s.drawing.received)
    then reset c true s
    else if nat_beq (length after.segments) (length s.drawing.segments)
    then next
    else broadcast (screen_draw_message segment true) next

unfoldable pub submit : Clock → ScreenDraw → ScreenDrawingSession → ScreenDrawingSession
submit c d s =
    let segment = record d { sharer = s.sharer; author = s.local_name; epoch = s.drawing.epoch } in
    if not (drawing_allowed s.drawing)
    then s
    else if s.owner
    then accept c segment s
    else if s.watching
    then send_to_peer s.sharer (screen_draw_message segment false)
        (with_drawing (add c.elapsed segment s.drawing) s)
    else s

unfoldable pub accept_laser : Clock → ScreenLaser → ScreenDrawingSession → ScreenDrawingSession
accept_laser c point s =
    let added = add_laser c.elapsed point s.drawing in
    let next = with_drawing (added.0) s in
    if added.1 then broadcast (screen_laser_message point true) next else next

unfoldable pub submit_laser : Clock → ScreenLaser → ScreenDrawingSession → ScreenDrawingSession
submit_laser c l s =
    let point = record l { sharer = s.sharer; author = s.local_name; epoch = s.drawing.epoch } in
    if not (drawing_allowed s.drawing)
    then s
    else if s.owner
    then accept_laser c point s
    else if s.watching
    then send_to_peer s.sharer (screen_laser_message point false)
        (with_drawing ((add_laser c.elapsed point s.drawing).0) s)
    else s

-- The batches of a request; each takes a stroke at least.
unfoldable pub batches : ℕ → List ℕ → List (List ℕ)
batches zero strokes = []
batches (suc fuel) [] = []
batches (suc fuel) (id ∷ ids) =
    take max_erase_strokes (id ∷ ids) ∷ batches fuel (drop max_erase_strokes (id ∷ ids))

abbrev pub erase_request : Text → List ℕ → ScreenDrawingSession → ScreenErase
erase_request author batch s = record {
  sharer = s.sharer;
  author = author;
  epoch = s.drawing.epoch;
  strokes = batch;
}

unfoldable pub erase_batch : Text → List ℕ → ScreenDrawingSession → ScreenDrawingSession
erase_batch author batch s =
    let m = screen_erase_message (erase_request author batch s) in
    let next = with_drawing (remove author batch s.drawing) s in
    if s.owner then broadcast m next else send_to_peer s.sharer m next

unfoldable pub erase_batches : Text → List (List ℕ) → ScreenDrawingSession → ScreenDrawingSession
erase_batches author [] s = s
erase_batches author (batch ∷ rest) s = erase_batches author rest (erase_batch author batch s)

unfoldable pub erase : Text → List ℕ → ScreenDrawingSession → ScreenDrawingSession
erase author strokes s =
    if not s.drawing.enabled
      || (not s.owner && (not s.watching || (s.drawing.banned || not (author == s.local_name))))
    then s
    else erase_batches author (batches (length strokes) strokes) s
