-- ===== src/Drawing/Session/Receive.antt =====
-- `receive`: what a peer sends, to the presenter and to a viewer.
use disquisition.Common.{
  Bool, true, false, not, ◌&&◌, ◌||◌, Option, none, some, List, [], ◌∷◌, Text, text_eq, nat_eq,
  codes, ◌==◌, nat_beq, if◌then◌else◌, length,
}
use disquisition.Common.Int.{ℤ, int_eq}
use disquisition.Common.Sets.{has, include, exclude}
use disquisition.Protocol.Frame.{
  screen_draw_state, screen_draw, screen_draw_watch, screen_draw_erase, screen_laser, Message,
}
use disquisition.Protocol.Records.{
  ScreenDraw, ScreenErase, ScreenLaser, is_kind, field, parse_epoch, parse_screen_draw,
  parse_screen_erase, parse_screen_laser,
}
use disquisition.Drawing.Board.{set_state, set_status, add, remove, set_banned}
use disquisition.Drawing.Board.Lasers.{add_laser}
use disquisition.Drawing.Session.{
  Clock, ScreenDrawingSession, is_banned, with_drawing, send_snapshot, accept, accept_laser, erase,
}

unfoldable pub receive_watch : Text → Message → ScreenDrawingSession → ScreenDrawingSession
receive_watch sender m s =
    let next = record s { viewers = include sender s.viewers } in
    if field m 1 == codes "0"
    then record s { viewers = exclude sender s.viewers }
    else if field m 1 == codes "1"
    then send_snapshot sender next
    else s

-- The parsed request of a viewer; its author is whoever sent it.
unfoldable pub accept_found :
    Clock → Text → Option ScreenDraw → ScreenDrawingSession → ScreenDrawingSession
accept_found c sender none s = s
accept_found c sender (some d) s =
    if d.sharer == s.sharer then accept c (record d { author = sender }) s else s

unfoldable pub accept_laser_found :
    Clock → Text → Option ScreenLaser → ScreenDrawingSession → ScreenDrawingSession
accept_laser_found c sender none s = s
accept_laser_found c sender (some l) s =
    if l.sharer == s.sharer then accept_laser c (record l { author = sender }) s else s

unfoldable pub erase_found : Text → Option ScreenErase → ScreenDrawingSession → ScreenDrawingSession
erase_found sender none s = s
erase_found sender (some e) s =
    if e.sharer == s.sharer && (e.epoch == s.drawing.epoch && e.author == sender)
    then erase sender e.strokes s
    else s

abbrev pub may_draw : Text → ScreenDrawingSession → Bool
may_draw sender s = has sender s.viewers && not (is_banned s sender)

unfoldable pub receive_owner : Clock → Text → Message → ScreenDrawingSession → ScreenDrawingSession
receive_owner c sender m s =
    if is_kind m.kind screen_draw_watch && (nat_beq (length m.fields) 2 && field m 0 == s.sharer)
    then receive_watch sender m s
    else if is_kind m.kind screen_draw && may_draw sender s
    then accept_found c sender (parse_screen_draw m false) s
    else if is_kind m.kind screen_laser && may_draw sender s
    then accept_laser_found c sender (parse_screen_laser m false) s
    else if is_kind m.kind screen_draw_erase && may_draw sender s
    then erase_found sender (parse_screen_erase m) s
    else s

abbrev pub is_flag : Text → Bool
is_flag t = t == codes "0" || t == codes "1"

unfoldable pub is_state : Message → ScreenDrawingSession → Bool
is_state m s =
    is_kind m.kind screen_draw_state
    && ((nat_beq (length m.fields) 3 || nat_beq (length m.fields) 4)
        && ((nat_beq (length m.fields) 3 || is_flag (field m 3))
            && (field m 0 == s.sharer && is_flag (field m 1))))

unfoldable pub follow_found : Message → Option ℤ → ScreenDrawingSession → ScreenDrawingSession
follow_found m none s = s
follow_found m (some epoch) s =
    let banned = nat_beq (length m.fields) 4 && field m 3 == codes "0" in
    let b =
      set_state (field m 1 == codes "1") epoch (set_status [] (set_banned banned s.drawing)) in
    record s { retry = false; drawing = b }

unfoldable pub point_found :
    Clock → Option ScreenLaser → ScreenDrawingSession → ScreenDrawingSession
point_found c none s = s
point_found c (some l) s =
    if l.sharer == s.sharer then with_drawing ((add_laser c.elapsed l s.drawing).0) s else s

unfoldable pub remove_found : Option ScreenErase → ScreenDrawingSession → ScreenDrawingSession
remove_found none s = s
remove_found (some e) s =
    if e.sharer == s.sharer && (e.epoch == s.drawing.epoch && s.drawing.enabled)
    then with_drawing (remove e.author e.strokes s.drawing) s
    else s

unfoldable pub add_found : Clock → Option ScreenDraw → ScreenDrawingSession → ScreenDrawingSession
add_found c none s = s
add_found c (some d) s =
    if d.sharer == s.sharer then with_drawing (add c.elapsed d s.drawing) s else s

unfoldable pub receive_viewer : Clock → Message → ScreenDrawingSession → ScreenDrawingSession
receive_viewer c m s =
    if is_state m s
    then follow_found m (parse_epoch (field m 2)) s
    else if is_kind m.kind screen_laser
    then point_found c (parse_screen_laser m true) s
    else if is_kind m.kind screen_draw_erase
    then remove_found (parse_screen_erase m) s
    else if is_kind m.kind screen_draw
    then add_found c (parse_screen_draw m true) s
    else s

unfoldable pub receive : Clock → Text → Message → ScreenDrawingSession → ScreenDrawingSession
receive c sender m s =
    if sender == s.local_name
    then s
    else if s.owner
    then receive_owner c sender m s
    else if not s.watching || not (sender == s.sharer)
    then s
    else receive_viewer c m s

-- Messages of one sender, in order.
unfoldable pub receive_all :
    Clock → Text → List Message → ScreenDrawingSession → ScreenDrawingSession
receive_all c sender [] s = s
receive_all c sender (m ∷ ms) s = receive_all c sender ms (receive c sender m s)
