-- ===== src/Drawing/Session/History.antt =====
-- Whatever happens to a session, its board keeps its invariant.
use disquisition.Common.{
  ℕ, ◌+◌, Bool, true, false, not, ◌&&◌, ◌||◌, Option, none, some, List, [], ◌∷◌, Text, text_eq,
  nat_eq, codes, ◌==◌, leb, nat_beq, if◌then◌else◌, length, if_case,
}
use disquisition.Common.Int.{ℤ, pos, int_eq}
use disquisition.Common.Sets.{has}
use disquisition.Protocol.Frame.{Message}
use disquisition.Protocol.Records.{
  ScreenDraw, ScreenErase, ScreenLaser, is_kind, field, parse_epoch, parse_screen_draw,
  parse_screen_erase, parse_screen_laser,
}
use disquisition.Protocol.Frame.{screen_draw, screen_draw_watch, screen_draw_erase, screen_laser}
use disquisition.Drawing.Board.{Tool, ScreenDrawing, new_drawing, bump_segment_id}
use disquisition.Drawing.Board.Lasers.{put_away, take_tool}
use disquisition.Drawing.Board.Laws.{Inv, add-Inv, empty-Ink, set_state-Inv}
use disquisition.Drawing.Board.Erasing.{remove-Inv}
use disquisition.Drawing.Session.{Clock, ScreenDrawingSession, send_snapshot, ban_peer}
use disquisition.Drawing.Session.Receive.{
  receive_watch, accept_found, accept_laser_found, erase_found, may_draw, receive_owner, is_state,
  follow_found, point_found, remove_found, add_found, receive_viewer, receive,
}
use disquisition.Drawing.Session.Events.{
  Event, received, peer_changes, drawn, pointed, permission, cleared, mine_cleared, undone, erased,
  selection_deleted, tool_chosen, peer_banned, new_session, started, stopped, timer, start, stop,
  expire_request, retry_timeout, peer_changed, request_permission, request_clear, clear_mine,
  undo_found, undo_last, delete_selected, point_away, set_tool, handle, handle_all,
}
use disquisition.Drawing.Session.Laws.{
  Keeps, reset-Keeps, accept-Keeps, submit-Keeps, add_laser-Inv, accept_laser-Keeps,
  submit_laser-Keeps, erase-Keeps, erase_each-Keeps,
}

accept_found-Keeps :
    (c : Clock) (sender : Text) (o : Option ScreenDraw) (s : ScreenDrawingSession)
    → Keeps s
    → Keeps (accept_found c sender o s)
unfolding Keeps accept_found
accept_found-Keeps c sender none s v = v
accept_found-Keeps c sender (some d) s v =
    if_case Keeps (d.sharer == s.sharer) (λ _. accept-Keeps c _ s v) (λ _. v)

accept_laser_found-Keeps :
    (c : Clock) (sender : Text) (o : Option ScreenLaser) (s : ScreenDrawingSession)
    → Keeps s
    → Keeps (accept_laser_found c sender o s)
unfolding Keeps accept_laser_found
accept_laser_found-Keeps c sender none s v = v
accept_laser_found-Keeps c sender (some l) s v =
    if_case Keeps (l.sharer == s.sharer) (λ _. accept_laser-Keeps c _ s v) (λ _. v)

erase_found-Keeps :
    (sender : Text) (o : Option ScreenErase) (s : ScreenDrawingSession)
    → Keeps s
    → Keeps (erase_found sender o s)
unfolding Keeps erase_found
erase_found-Keeps sender none s v = v
erase_found-Keeps sender (some e) s v =
    if_case Keeps _ (λ _. erase-Keeps sender e.strokes s v) (λ _. v)

receive_watch-Keeps :
    (sender : Text) (m : Message) (s : ScreenDrawingSession)
    → Keeps s
    → Keeps (receive_watch sender m s)
unfolding Keeps receive_watch send_snapshot
receive_watch-Keeps sender m s v =
    if_case Keeps (field m 1 == codes "0") (λ _. v)
      (λ _. if_case Keeps (field m 1 == codes "1") (λ _. v) (λ _. v))

receive_owner-Keeps :
    (c : Clock) (sender : Text) (m : Message) (s : ScreenDrawingSession)
    → Keeps s
    → Keeps (receive_owner c sender m s)
unfolding receive_owner
receive_owner-Keeps c sender m s v =
    let watches =
      is_kind m.kind screen_draw_watch && (nat_beq (length m.fields) 2 && field m 0 == s.sharer) in
    if_case Keeps watches (λ _. receive_watch-Keeps sender m s v)
      (λ _.
        if_case Keeps (is_kind m.kind screen_draw && may_draw sender s)
          (λ _. accept_found-Keeps c sender (parse_screen_draw m false) s v)
          (λ _.
            if_case Keeps (is_kind m.kind screen_laser && may_draw sender s)
              (λ _. accept_laser_found-Keeps c sender (parse_screen_laser m false) s v)
              (λ _.
                if_case Keeps (is_kind m.kind screen_draw_erase && may_draw sender s)
                  (λ _. erase_found-Keeps sender (parse_screen_erase m) s v) (λ _. v))))

follow_found-Keeps :
    (m : Message) (o : Option ℤ) (s : ScreenDrawingSession) → Keeps s → Keeps (follow_found m o s)
unfolding Keeps follow_found
follow_found-Keeps m none s v = v
follow_found-Keeps m (some epoch) s v = set_state-Inv _ epoch _

point_found-Keeps :
    (c : Clock) (o : Option ScreenLaser) (s : ScreenDrawingSession)
    → Keeps s
    → Keeps (point_found c o s)
unfolding Keeps point_found
point_found-Keeps c none s v = v
point_found-Keeps c (some l) s v =
    if_case Keeps (l.sharer == s.sharer) (λ _. add_laser-Inv c.elapsed l s.drawing v) (λ _. v)

remove_found-Keeps :
    (o : Option ScreenErase) (s : ScreenDrawingSession) → Keeps s → Keeps (remove_found o s)
unfolding Keeps remove_found
remove_found-Keeps none s v = v
remove_found-Keeps (some e) s v =
    if_case Keeps _ (λ _. remove-Inv e.author e.strokes s.drawing v) (λ _. v)

add_found-Keeps :
    (c : Clock) (o : Option ScreenDraw) (s : ScreenDrawingSession)
    → Keeps s
    → Keeps (add_found c o s)
unfolding Keeps add_found
add_found-Keeps c none s v = v
add_found-Keeps c (some d) s v =
    if_case Keeps (d.sharer == s.sharer) (λ _. add-Inv c.elapsed d s.drawing v) (λ _. v)

receive_viewer-Keeps :
    (c : Clock) (m : Message) (s : ScreenDrawingSession) → Keeps s → Keeps (receive_viewer c m s)
unfolding receive_viewer
receive_viewer-Keeps c m s v =
    if_case Keeps (is_state m s) (λ _. follow_found-Keeps m (parse_epoch (field m 2)) s v)
      (λ _.
        if_case Keeps (is_kind m.kind screen_laser)
          (λ _. point_found-Keeps c (parse_screen_laser m true) s v)
          (λ _.
            if_case Keeps (is_kind m.kind screen_draw_erase)
              (λ _. remove_found-Keeps (parse_screen_erase m) s v)
              (λ _.
                if_case Keeps (is_kind m.kind screen_draw)
                  (λ _. add_found-Keeps c (parse_screen_draw m true) s v) (λ _. v))))

pub receive-Keeps :
    (c : Clock) (sender : Text) (m : Message) (s : ScreenDrawingSession)
    → Keeps s
    → Keeps (receive c sender m s)
unfolding receive
receive-Keeps c sender m s v =
    if_case Keeps (sender == s.local_name) (λ _. v)
      (λ _.
        if_case Keeps s.owner (λ _. receive_owner-Keeps c sender m s v)
          (λ _.
            if_case Keeps (not s.watching || not (sender == s.sharer)) (λ _. v)
              (λ _. receive_viewer-Keeps c m s v)))

start-Keeps : (s : ScreenDrawingSession) → Keeps s → Keeps (start s)
unfolding Keeps start
start-Keeps s v = if_case Keeps s.owner (λ _. v) (λ _. set_state-Inv false (pos 0) s.drawing)

stop-Keeps : (s : ScreenDrawingSession) → Keeps s → Keeps (stop s)
unfolding Keeps stop
stop-Keeps s v = if_case Keeps s.owner (λ _. v) (λ _. if_case Keeps s.watching (λ _. v) (λ _. v))

expire_request-Keeps : (s : ScreenDrawingSession) → Keeps s → Keeps (expire_request s)
unfolding Keeps expire_request
expire_request-Keeps s v = if_case Keeps _ (λ _. v) (λ _. set_state-Inv false (pos 0) s.drawing)

retry_timeout-Keeps : (s : ScreenDrawingSession) → Keeps s → Keeps (retry_timeout s)
unfolding Keeps retry_timeout
retry_timeout-Keeps s v =
    if_case Keeps (not s.retry) (λ _. v)
      (λ _. if_case Keeps (leb 5 (s.attempts + 1)) (λ _. expire_request-Keeps _ v) (λ _. v))

peer_changed-Keeps :
    (peer : Text) (connected : Bool) (s : ScreenDrawingSession)
    → Keeps s
    → Keeps (peer_changed peer connected s)
unfolding Keeps peer_changed
peer_changed-Keeps peer connected s v =
    if_case Keeps s.owner (λ _. if_case Keeps connected (λ _. v) (λ _. v))
      (λ _. if_case Keeps _ (λ _. start-Keeps s v) (λ _. v))

undo_found-Keeps :
    (o : Option (Text × List ℕ)) (s : ScreenDrawingSession) → Keeps s → Keeps (undo_found o s)
unfolding Keeps undo_found
undo_found-Keeps none s v = v
undo_found-Keeps (some (author, ids)) s v = erase-Keeps author ids s v

ban_peer-Keeps :
    (peer : Text) (banned : Bool) (s : ScreenDrawingSession)
    → Keeps s
    → Keeps (ban_peer peer banned s)
unfolding Keeps ban_peer send_snapshot
ban_peer-Keeps peer banned s v =
    let refused =
      not s.owner
      || (nat_beq (length peer) 0
          || (peer == s.local_name || (if has peer s.banned then banned else not banned))) in
    if_case Keeps refused (λ _. v) (λ _. if_case Keeps (has peer s.viewers) (λ _. v) (λ _. v))

put_away-Inv : (t : Tool) (b : ScreenDrawing) → Inv b → Inv ((put_away t b).0)
unfolding put_away bump_segment_id
put_away-Inv t b v =
    if_case (λ (r : ScreenDrawing × Option ScreenLaser). Inv (r.0)) _ (λ _. v) (λ _. v)

point_away-Keeps :
    (c : Clock) (o : Option ScreenLaser) (s : ScreenDrawingSession)
    → Keeps s
    → Keeps (point_away c o s)
unfolding Keeps point_away
point_away-Keeps c none s v = v
point_away-Keeps c (some l) s v = submit_laser-Keeps c l s v

set_tool-Keeps :
    (c : Clock) (t : Tool) (s : ScreenDrawingSession) → Keeps s → Keeps (set_tool c t s)
unfolding Keeps set_tool take_tool
set_tool-Keeps c t s v = point_away-Keeps c _ _ (put_away-Inv t s.drawing v)

handle-Keeps : (e : Event) (s : ScreenDrawingSession) → Keeps s → Keeps (handle e s)
unfolding Keeps handle request_permission request_clear clear_mine undo_last delete_selected
handle-Keeps (received c sender m) s v = receive-Keeps c sender m s v
handle-Keeps (peer_changes peer connected) s v = peer_changed-Keeps peer connected s v
handle-Keeps (drawn c d) s v = submit-Keeps c d s v
handle-Keeps (pointed c l) s v = submit_laser-Keeps c l s v
handle-Keeps (permission c enabled) s v =
    if_case Keeps s.owner (λ _. reset-Keeps c enabled s) (λ _. v)
handle-Keeps (cleared c) s v =
    if_case Keeps (s.owner && s.drawing.enabled) (λ _. reset-Keeps c true s) (λ _. v)
handle-Keeps mine_cleared s v = erase-Keeps _ _ s v
handle-Keeps undone s v = undo_found-Keeps _ s v
handle-Keeps (erased strokes) s v = erase_each-Keeps _ s v
handle-Keeps selection_deleted s v = erase_each-Keeps _ s v
handle-Keeps (tool_chosen c t) s v = set_tool-Keeps c t s v
handle-Keeps (peer_banned peer banned) s v = ban_peer-Keeps peer banned s v
handle-Keeps started s v = start-Keeps s v
handle-Keeps stopped s v = stop-Keeps s v
handle-Keeps timer s v = retry_timeout-Keeps s v

pub handle_all-Keeps :
    (es : List Event) (s : ScreenDrawingSession) → Keeps s → Keeps (handle_all es s)
unfolding Keeps handle_all
handle_all-Keeps [] s v = v
handle_all-Keeps (e ∷ es) s v = handle_all-Keeps es (handle e s) (handle-Keeps e s v)

new_session-Keeps :
    (c : Clock) (local_name sharer : Text) (owner : Bool) (previous : ℕ)
    → Keeps (new_session c local_name sharer new_drawing owner previous)
unfolding Keeps new_session
new_session-Keeps c local_name sharer owner previous =
    if_case Keeps owner (λ _. reset-Keeps c false _) (λ _. empty-Ink false (pos 0))

-- Whatever happens to a session on a new board, be it the presenter's or a viewer's, and whatever its peers send:
-- the segments are of the board's epoch, no two have the same author and number, none is of a stroke that was
-- erased, there are at most 4096, and a board that is disabled is empty.
pub drawing-handle_all-Inv :
    (c : Clock) (local_name sharer : Text) (owner : Bool) (previous : ℕ) (es : List Event)
    → Inv (handle_all es (new_session c local_name sharer new_drawing owner previous)).drawing
unfolding Keeps
drawing-handle_all-Inv c local_name sharer owner previous es =
    handle_all-Keeps es _ (new_session-Keeps c local_name sharer owner previous)
