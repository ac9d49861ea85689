-- ===== src/Drawing/Tests.antt =====
-- The theorems on drawing at concrete inputs.
use disquisition.Common.{
  ◌≤◌, ◌≡◌, ◌⊎◌, inr, refl, true, false, List, [], ◌∷◌, arith, Text, text_eq, nat_eq, text_beq,
  codes, length, All, replicate,
}
use disquisition.Common.Int.{pos, negsuc, int_eq}
use disquisition.Common.Sets.{has}
use disquisition.Protocol.Frame.{Message}
use disquisition.Protocol.Records.{
  ScreenDraw, drawing_identity, all_hex, max_draw_segments, max_erase_strokes, screen_draw_message,
}
use disquisition.Protocol.Records.Draw.{IsValid}
use disquisition.Protocol.Number.{digits, nat_to_string}
use disquisition.Drawing.Board.{ScreenDrawing, new_drawing, key_of, drawn_by, remove}
use disquisition.Drawing.Board.Laws.{Inv}
use disquisition.Drawing.Board.Erasing.{
  Change, adds, removes, change_all, strokes_on, change_all-remove,
}
use disquisition.Drawing.Session.{Clock, ScreenDrawingSession, batches, snapshot, watch}
use disquisition.Drawing.Session.Receive.{receive, receive_all}
use disquisition.Drawing.Session.Events.{
  Event, received, drawn, permission, mine_cleared, new_session, fresh_session, handle_all, start,
}
use disquisition.Drawing.Session.History.{drawing-handle_all-Inv}
use disquisition.Drawing.Session.Follow.{IsSendable, IsWaiting, shown, receive_all-snapshot}
use disquisition.Drawing.Session.Authors.{drawn_by-receive, drawing-receive}
use disquisition.Drawing.Session.Requests.{
  concat, concat-batches, asks, retry_times, retry_times-start,
}

abbrev clock : Clock
clock = record { elapsed = 100; wall = 7 }

abbrev ann : Text
ann = codes "ann"

abbrev bob : Text
bob = codes "bob"

-- A line that Bob has drawn for Ann.
abbrev line : ScreenDraw
line = record {
  sharer = ann;
  author = bob;
  epoch = pos 5;
  id = 1;
  x1 = pos 0;
  y1 = pos 0;
  x2 = pos 9;
  y2 = pos 9;
  color = pos 2;
  stroke = 1;
  rgb = negsuc 0;
}

abbrev line_key : Text
line_key = codes "bob:1"

abbrev board : ScreenDrawing
board = record new_drawing {
  enabled = true;
  epoch = pos 5;
  segments = line ∷ [];
  received = line_key ∷ [];
}

abbrev ann_session : ScreenDrawingSession
ann_session = record {
  local_name = ann;
  sharer = ann;
  drawing = board;
  owner = true;
  watching = false;
  viewers = bob ∷ [];
  banned = [];
  retry = false;
  attempts = 0;
  previous = 5;
  sent = [];
}

abbrev bob_session : ScreenDrawingSession
bob_session = record (fresh_session bob ann new_drawing false 0) { watching = true; retry = true }

line-key : key_of bob 1 ≡ line_key
unfolding nat_to_string digits
line-key = refl

board-Inv : Inv board
unfolding has text_beq nat_to_string digits
board-Inv = record {
  epochs = (refl, tt);
  known = λ k h. h;
  distinct = (refl, tt);
  present = (refl, tt);
  few = omega arith;
  fits = omega arith;
  idle = λ off. ground arith;
}

line-IsValid : IsValid true line
unfolding drawing_identity all_hex
line-IsValid = record {
  sharer = refl;
  author = refl;
  epoch = ground arith;
  id = omega arith;
  x1 = ground arith;
  y1 = ground arith;
  x2 = ground arith;
  y2 = ground arith;
  color = ground arith;
  stroke = omega arith;
  rgb = ground arith;
}

ann-IsSendable : IsSendable ann_session
ann-IsSendable = record {
  board = board-Inv;
  valid = (line-IsValid, tt);
  sharer = (refl, tt);
  epoch = ground arith;
}

bob-IsWaiting : IsWaiting ann_session bob_session
unfolding text_beq
bob-IsWaiting = record { viewing = refl; watching = refl; sharer = refl; stranger = refl }

receive_all-snapshot_example :
    (shown (receive_all clock ann (snapshot bob ann_session) bob_session).drawing ≡ shown board)
    × ((receive_all clock ann (snapshot bob ann_session) bob_session).drawing.banned
        ≡ has bob ann_session.banned)
    × ((receive_all clock ann (snapshot bob ann_session) bob_session).retry ≡ false)
receive_all-snapshot_example =
    receive_all-snapshot clock ann_session bob_session ann-IsSendable bob-IsWaiting

abbrev run : List Event
run =
    permission clock true
    ∷ drawn clock line
    ∷ received clock bob (watch true ann_session)
    ∷ mine_cleared
    ∷ []

drawing-handle_all-Inv_example :
    Inv (handle_all run (new_session clock ann ann new_drawing true 0)).drawing
drawing-handle_all-Inv_example = drawing-handle_all-Inv clock ann ann true 0 run

abbrev other_line : Message
other_line = screen_draw_message line false

drawn_by-receive_example :
    (drawn_by bob (receive clock (codes "eve") other_line ann_session).drawing.segments
      ≡ drawn_by bob board.segments)
    ⊎ ((max_draw_segments ≤ length board.received)
        × ((receive clock (codes "eve") other_line ann_session).drawing.segments ≡ []))
drawn_by-receive_example =
    drawn_by-receive clock bob (codes "eve") other_line ann_session refl (unfold text_beq in refl)

drawing-receive_example : (receive clock (codes "eve") other_line ann_session).drawing ≡ board
drawing-receive_example =
    drawing-receive clock (codes "eve") other_line ann_session refl
      (inr (unfold has in unfold text_beq in refl))

abbrev late : List Change
late = adds 200 (record line { id = 2 }) ∷ removes ann (3 ∷ []) ∷ adds 300 line ∷ []

change_all-remove_example :
    has line_key (strokes_on (change_all late (remove bob (1 ∷ []) board))) ≡ false
change_all-remove_example =
    change_all-remove line_key bob (1 ∷ []) late board board-Inv
      (unfold has in unfold text_beq in unfold nat_to_string in unfold digits in refl)
      (unfold has in unfold text_beq in unfold nat_to_string in unfold digits in refl)

concat-batches_example :
    (concat (batches 130 (replicate 130 7)) ≡ replicate 130 7)
    × All (λ b. (1 ≤ length b) × (length b ≤ max_erase_strokes)) (batches 130 (replicate 130 7))
concat-batches_example = concat-batches 130 (replicate 130 7) (omega arith)

retry_times-start_example :
    let t = retry_times 3 (retry_times 5 (start bob_session)) in
    (t.sent
      ≡ asks bob_session
        ∷ asks bob_session
        ∷ asks bob_session
        ∷ asks bob_session
        ∷ asks bob_session
        ∷ [])
    × (t.retry ≡ false)
    × (t.drawing.enabled ≡ false)
    × (t.drawing.segments ≡ [])
retry_times-start_example = retry_times-start 3 bob_session refl
