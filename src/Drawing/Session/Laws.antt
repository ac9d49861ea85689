-- ===== src/Drawing/Session/Laws.antt =====
-- A session keeps what its board keeps.
use disquisition.Common.{
  ℕ, Bool, true, not, ◌||◌, List, [], ◌∷◌, Text, text_eq, nat_eq, ◌==◌, leb, nat_beq, length,
  if_case,
}
use disquisition.Common.Int.{int_eq}
use disquisition.Protocol.Records.{ScreenDraw, ScreenLaser, max_draw_segments}
use disquisition.Drawing.Board.{ScreenDrawing, add, drawing_allowed}
use disquisition.Drawing.Board.Lasers.{add_laser}
use disquisition.Drawing.Board.Laws.{Inv, add-Inv, set_state-Inv}
use disquisition.Drawing.Board.Erasing.{remove-Inv}
use disquisition.Drawing.Session.{
  Clock, ScreenDrawingSession, broadcast, reset, accept, submit, accept_laser, submit_laser,
  batches, erase_batch, erase_batches, erase,
}
use disquisition.Drawing.Session.Events.{erase_each}

unfoldable pub Keeps : ScreenDrawingSession → Type 0
Keeps s = Inv s.drawing

pub reset-Keeps :
    (c : Clock) (enabled : Bool) (s : ScreenDrawingSession) → Keeps (reset c enabled s)
unfolding Keeps reset
reset-Keeps c enabled s = set_state-Inv enabled _ _

pub accept-Keeps :
    (c : Clock) (d : ScreenDraw) (s : ScreenDrawingSession) → Keeps s → Keeps (accept c d s)
unfolding Keeps accept broadcast
accept-Keeps c d s v =
    if_case Keeps (not s.drawing.enabled || not (d.epoch == s.drawing.epoch)) (λ _. v)
      (λ _.
        if_case Keeps (leb max_draw_segments (length s.drawing.received))
          (λ _. reset-Keeps c true s)
          (λ _.
            if_case Keeps
              (nat_beq (length (add c.elapsed d s.drawing).segments) (length s.drawing.segments))
              (λ _. add-Inv c.elapsed d s.drawing v) (λ _. add-Inv c.elapsed d s.drawing v)))

pub submit-Keeps :
    (c : Clock) (d : ScreenDraw) (s : ScreenDrawingSession) → Keeps s → Keeps (submit c d s)
unfolding Keeps submit
submit-Keeps c d s v =
    if_case Keeps (not (drawing_allowed s.drawing)) (λ _. v)
      (λ _.
        if_case Keeps s.owner (λ _. accept-Keeps c _ s v)
          (λ _. if_case Keeps s.watching (λ _. add-Inv c.elapsed _ s.drawing v) (λ _. v)))

pub add_laser-Inv :
    (now : ℕ) (p : ScreenLaser) (b : ScreenDrawing) → Inv b → Inv ((add_laser now p b).0)
unfolding add_laser
add_laser-Inv now p b v = if_case (λ (r : ScreenDrawing × Bool). Inv (r.0)) _ (λ _. v) (λ _. v)

pub accept_laser-Keeps :
    (c : Clock) (p : ScreenLaser) (s : ScreenDrawingSession) → Keeps s → Keeps (accept_laser c p s)
unfolding Keeps accept_laser broadcast
accept_laser-Keeps c p s v =
    if_case Keeps ((add_laser c.elapsed p s.drawing).1) (λ _. add_laser-Inv c.elapsed p s.drawing v)
      (λ _. add_laser-Inv c.elapsed p s.drawing v)

pub submit_laser-Keeps :
    (c : Clock) (p : ScreenLaser) (s : ScreenDrawingSession) → Keeps s → Keeps (submit_laser c p s)
unfolding Keeps submit_laser
submit_laser-Keeps c p s v =
    if_case Keeps (not (drawing_allowed s.drawing)) (λ _. v)
      (λ _.
        if_case Keeps s.owner (λ _. accept_laser-Keeps c _ s v)
          (λ _. if_case Keeps s.watching (λ _. add_laser-Inv c.elapsed _ s.drawing v) (λ _. v)))

erase_batches-Keeps :
    (author : Text) (bs : List (List ℕ)) (s : ScreenDrawingSession)
    → Keeps s
    → Keeps (erase_batches author bs s)
unfolding Keeps erase_batches erase_batch broadcast
erase_batches-Keeps author [] s v = v
erase_batches-Keeps author (batch ∷ rest) s v =
    erase_batches-Keeps author rest (erase_batch author batch s) (
      if_case Keeps s.owner (λ _. remove-Inv author batch s.drawing v)
        (λ _. remove-Inv author batch s.drawing v))

pub erase-Keeps :
    (author : Text) (ids : List ℕ) (s : ScreenDrawingSession) → Keeps s → Keeps (erase author ids s)
unfolding Keeps erase
erase-Keeps author ids s v =
    if_case Keeps _ (λ _. v) (λ _. erase_batches-Keeps author (batches (length ids) ids) s v)

pub erase_each-Keeps :
    (rs : List (Text × List ℕ)) (s : ScreenDrawingSession) → Keeps s → Keeps (erase_each rs s)
unfolding Keeps erase_each
erase_each-Keeps [] s v = v
erase_each-Keeps ((author, ids) ∷ rs) s v =
    erase_each-Keeps rs (erase author ids s) (erase-Keeps author ids s v)
