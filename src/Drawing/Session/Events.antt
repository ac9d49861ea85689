-- ===== src/Drawing/Session/Events.antt =====
-- What starts and ends a session, its timer, and the signals of the board, which the constructor connects.
use disquisition.Common.{
  ℕ, ◌+◌, Bool, true, false, not, ◌&&◌, ◌||◌, Option, none, some, List, [], ◌∷◌, Text, text_eq,
  nat_eq, codes, ◌==◌, leb, if◌then◌else◌,
}
use disquisition.Common.Int.{pos, int_eq}
use disquisition.Common.Sets.{exclude}
use disquisition.Protocol.Frame.{Message}
use disquisition.Protocol.Records.{ScreenDraw, ScreenLaser}
use disquisition.Drawing.Board.{
  Tool, ScreenDrawing, set_identity, set_state, set_status, stroke_ids, undo, delete_selection,
  request_erase,
}
use disquisition.Drawing.Board.Lasers.{put_away, take_tool}
use disquisition.Drawing.Session.{
  Clock, ScreenDrawingSession, with_drawing, send_to_peer, watch, reset, submit, submit_laser,
  erase, ban_peer,
}
use disquisition.Drawing.Session.Receive.{receive}

unfoldable pub start : ScreenDrawingSession → ScreenDrawingSession
start s =
    let b = set_status (codes "connecting drawing...") (set_state false (pos 0) s.drawing) in
    let next = record s { watching = true; drawing = b; attempts = 0; retry = true } in
    if s.owner then s else send_to_peer s.sharer (watch true s) next

unfoldable pub stop : ScreenDrawingSession → ScreenDrawingSession
stop s =
    let stopped = record s { retry = false } in
    let unwatched = record stopped { watching = false } in
    if s.owner
    then record stopped { viewers = [] }
    else if s.watching
    then send_to_peer s.sharer (watch false s) unwatched
    else stopped

unfoldable pub expire_request : ScreenDrawingSession → ScreenDrawingSession
expire_request s =
    let b =
      set_status (codes "drawing unavailable: update both apps and the relay")
        (set_state false (pos 0) s.drawing) in
    if s.owner || (not s.watching || not s.retry)
    then s
    else record s { retry = false; drawing = b }

-- The retry timer, which a timeout finds running.
unfoldable pub retry_timeout : ScreenDrawingSession → ScreenDrawingSession
retry_timeout s =
    let next = record s { attempts = s.attempts + 1 } in
    if not s.retry
    then s
    else if leb 5 next.attempts
    then expire_request next
    else send_to_peer s.sharer (watch true s) next

unfoldable pub peer_changed : Text → Bool → ScreenDrawingSession → ScreenDrawingSession
peer_changed peer connected s =
    let left = record s { viewers = exclude peer s.viewers } in
    if s.owner
    then (if connected then s else left)
    else if peer == s.sharer && s.watching
    then start s
    else s

abbrev pub fresh_session : Text → Text → ScreenDrawing → Bool → ℕ → ScreenDrawingSession
fresh_session local_name sharer drawing owner previous = record {
  local_name = local_name;
  sharer = sharer;
  drawing = set_identity local_name owner drawing;
  owner = owner;
  watching = false;
  viewers = [];
  banned = [];
  retry = false;
  attempts = 0;
  previous = previous;
  sent = [];
}

unfoldable pub new_session : Clock → Text → Text → ScreenDrawing → Bool → ℕ → ScreenDrawingSession
new_session c local_name sharer drawing owner previous =
    let fresh = fresh_session local_name sharer drawing owner previous in
    if owner then reset c false fresh else fresh

unfoldable pub request_permission : Clock → Bool → ScreenDrawingSession → ScreenDrawingSession
request_permission c enabled s = if s.owner then reset c enabled s else s

unfoldable pub request_clear : Clock → ScreenDrawingSession → ScreenDrawingSession
request_clear c s = if s.owner && s.drawing.enabled then reset c true s else s

unfoldable pub clear_mine : ScreenDrawingSession → ScreenDrawingSession
clear_mine s = erase s.local_name (stroke_ids s.local_name s.drawing) s

-- The requests of one signal after the other.
unfoldable pub erase_each : List (Text × List ℕ) → ScreenDrawingSession → ScreenDrawingSession
erase_each [] s = s
erase_each ((author, strokes) ∷ rest) s = erase_each rest (erase author strokes s)

unfoldable pub undo_found : Option (Text × List ℕ) → ScreenDrawingSession → ScreenDrawingSession
undo_found none s = s
undo_found (some (author, strokes)) s = erase author strokes s

unfoldable pub undo_last : ScreenDrawingSession → ScreenDrawingSession
undo_last s = undo_found (undo s.drawing) s

unfoldable pub delete_selected : ScreenDrawingSession → ScreenDrawingSession
delete_selected s = erase_each (delete_selection s.drawing) s

unfoldable pub point_away : Clock → Option ScreenLaser → ScreenDrawingSession → ScreenDrawingSession
point_away c none s = s
point_away c (some l) s = submit_laser c l s

-- `setTool` of the board with what its signal does.
unfoldable pub set_tool : Clock → Tool → ScreenDrawingSession → ScreenDrawingSession
set_tool c t s =
    let away = put_away t s.drawing in
    let told = point_away c (away.1) (with_drawing (away.0) s) in
    with_drawing (take_tool t told.drawing) told

-- What can happen to a session.
pub data Event : Type 0 where
  received : Clock → Text → Message → Event
  peer_changes : Text → Bool → Event
  drawn : Clock → ScreenDraw → Event
  pointed : Clock → ScreenLaser → Event
  permission : Clock → Bool → Event
  cleared : Clock → Event
  mine_cleared : Event
  undone : Event
  erased : List Text → Event
  selection_deleted : Event
  tool_chosen : Clock → Tool → Event
  peer_banned : Text → Bool → Event
  started : Event
  stopped : Event
  timer : Event

unfoldable pub handle : Event → ScreenDrawingSession → ScreenDrawingSession
handle (received c sender m) s = receive c sender m s
handle (peer_changes peer connected) s = peer_changed peer connected s
handle (drawn c d) s = submit c d s
handle (pointed c l) s = submit_laser c l s
handle (permission c enabled) s = request_permission c enabled s
handle (cleared c) s = request_clear c s
handle mine_cleared s = clear_mine s
handle undone s = undo_last s
handle (erased strokes) s = erase_each (request_erase strokes s.drawing) s
handle selection_deleted s = delete_selected s
handle (tool_chosen c t) s = set_tool c t s
handle (peer_banned peer banned) s = ban_peer peer banned s
handle started s = start s
handle stopped s = stop s
handle timer s = retry_timeout s

unfoldable pub handle_all : List Event → ScreenDrawingSession → ScreenDrawingSession
handle_all [] s = s
handle_all (e ∷ es) s = handle_all es (handle e s)
