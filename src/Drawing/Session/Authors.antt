-- ===== src/Drawing/Session/Authors.antt =====
-- What a viewer's message can do to what the others have drawn.
use disquisition.Common.{
  ℕ, ◌≤◌, ◌≡◌, ◌⊎◌, inl, inr, refl, ◌∙◌, ap, Bool, true, false, not, ◌&&◌, ◌||◌, Option, none, some,
  List, [], ◌∷◌, arith, Text, text_eq, nat_eq, codes, ◌==◌, leb, nat_beq, length, if_case,
}
use disquisition.Common.Int.{int_eq}
use disquisition.Common.Sets.{has}
use disquisition.Protocol.Frame.{
  Message, screen_draw, screen_draw_watch, screen_draw_erase, screen_laser,
}
use disquisition.Protocol.Records.{
  ScreenDraw, ScreenErase, ScreenLaser, max_draw_segments, is_kind, field, parse_screen_draw,
  parse_screen_erase, parse_screen_laser,
}
use disquisition.Drawing.Board.{ScreenDrawing, set_state, add, drawn_by}
use disquisition.Drawing.Board.Lasers.{add_laser}
use disquisition.Drawing.Board.Keys.{drawn_by-remove, drawn_by-add}
use disquisition.Drawing.Session.{
  Clock, ScreenDrawingSession, broadcast, reset, send_snapshot, accept, accept_laser, batches,
  erase_batch, erase_batches, erase,
}
use disquisition.Drawing.Session.Receive.{
  receive_watch, accept_found, accept_laser_found, erase_found, may_draw, receive_owner, receive,
}

-- What the author has drawn is the same, or the board was full and is cleared.
unfoldable Spares : Text → ScreenDrawingSession → ScreenDrawingSession → Type 0
Spares author s t =
    (drawn_by author t.drawing.segments ≡ drawn_by author s.drawing.segments)
    ⊎ ((max_draw_segments ≤ length s.drawing.received) × (t.drawing.segments ≡ []))

accept-Spares :
    (c : Clock) (author : Text) (d : ScreenDraw) (s : ScreenDrawingSession)
    → (author == d.author) ≡ false
    → Spares author s (accept c d s)
unfolding accept reset set_state broadcast Spares
accept-Spares c author d s other =
    let new = drawn_by-add author c.elapsed d s.drawing other in
    if_case (Spares author s) (not s.drawing.enabled || not (d.epoch == s.drawing.epoch))
      (λ _. inl refl)
      (λ _.
        if_case (Spares author s) (leb max_draw_segments (length s.drawing.received))
          (λ full. inr (ground arith, refl))
          (λ _.
            if_case (Spares author s)
              (nat_beq (length (add c.elapsed d s.drawing).segments) (length s.drawing.segments))
              (λ _. inl new) (λ _. inl new)))

add_laser-segments :
    (now : ℕ) (p : ScreenLaser) (b : ScreenDrawing) → ((add_laser now p b).0).segments ≡ b.segments
unfolding add_laser
add_laser-segments now p b =
    if_case (λ (r : ScreenDrawing × Bool). (r.0).segments ≡ b.segments) _ (λ _. refl) (λ _. refl)

accept_laser-Spares :
    (c : Clock) (author : Text) (p : ScreenLaser) (s : ScreenDrawingSession)
    → Spares author s (accept_laser c p s)
unfolding accept_laser broadcast Spares
accept_laser-Spares c author p s =
    let same = ap (drawn_by author) (add_laser-segments c.elapsed p s.drawing) in
    if_case (Spares author s) ((add_laser c.elapsed p s.drawing).1) (λ _. inl same) (λ _. inl same)

erase_batches-drawn_by :
    (author sender : Text) (bs : List (List ℕ)) (s : ScreenDrawingSession)
    → (author == sender) ≡ false
    → drawn_by author (erase_batches sender bs s).drawing.segments
      ≡ drawn_by author s.drawing.segments
unfolding erase_batches erase_batch broadcast
erase_batches-drawn_by author sender [] s other = refl
erase_batches-drawn_by author sender (batch ∷ rest) s other =
    let one = drawn_by-remove author sender batch s.drawing other in
    erase_batches-drawn_by author sender rest (erase_batch sender batch s) other
    ∙ if_case
        (λ (t : ScreenDrawingSession).
          drawn_by author t.drawing.segments ≡ drawn_by author s.drawing.segments)
        s.owner (λ _. one) (λ _. one)

erase-Spares :
    (author sender : Text) (ids : List ℕ) (s : ScreenDrawingSession)
    → (author == sender) ≡ false
    → Spares author s (erase sender ids s)
unfolding erase Spares
erase-Spares author sender ids s other =
    let refused =
      not s.drawing.enabled
      || (not s.owner && (not s.watching || (s.drawing.banned || not (sender == s.local_name)))) in
    if_case (Spares author s) refused (λ _. inl refl)
      (λ _. inl (erase_batches-drawn_by author sender (batches (length ids) ids) s other))

receive_watch-drawing :
    (sender : Text) (m : Message) (s : ScreenDrawingSession)
    → (receive_watch sender m s).drawing ≡ s.drawing
unfolding receive_watch send_snapshot
receive_watch-drawing sender m s =
    let same = λ (t : ScreenDrawingSession). t.drawing ≡ s.drawing in
    if_case same (field m 1 == codes "0") (λ _. refl)
      (λ _. if_case same (field m 1 == codes "1") (λ _. refl) (λ _. refl))

accept_found-Spares :
    (c : Clock) (author sender : Text) (o : Option ScreenDraw) (s : ScreenDrawingSession)
    → (author == sender) ≡ false
    → Spares author s (accept_found c sender o s)
unfolding accept_found Spares
accept_found-Spares c author sender none s other = inl refl
accept_found-Spares c author sender (some d) s other =
    if_case (Spares author s) (d.sharer == s.sharer)
      (λ _. accept-Spares c author (record d { author = sender }) s other) (λ _. inl refl)

accept_laser_found-Spares :
    (c : Clock) (author sender : Text) (o : Option ScreenLaser) (s : ScreenDrawingSession)
    → Spares author s (accept_laser_found c sender o s)
unfolding accept_laser_found Spares
accept_laser_found-Spares c author sender none s = inl refl
accept_laser_found-Spares c author sender (some l) s =
    if_case (Spares author s) (l.sharer == s.sharer)
      (λ _. accept_laser-Spares c author (record l { author = sender }) s) (λ _. inl refl)

erase_found-Spares :
    (author sender : Text) (o : Option ScreenErase) (s : ScreenDrawingSession)
    → (author == sender) ≡ false
    → Spares author s (erase_found sender o s)
unfolding erase_found Spares
erase_found-Spares author sender none s other = inl refl
erase_found-Spares author sender (some e) s other =
    if_case (Spares author s)
      (e.sharer == s.sharer && (e.epoch == s.drawing.epoch && e.author == sender))
      (λ _. erase-Spares author sender e.strokes s other) (λ _. inl refl)

receive_owner-Spares :
    (c : Clock) (author sender : Text) (m : Message) (s : ScreenDrawingSession)
    → (author == sender) ≡ false
    → Spares author s (receive_owner c sender m s)
unfolding receive_owner Spares
receive_owner-Spares c author sender m s other =
    let watches =
      is_kind m.kind screen_draw_watch && (nat_beq (length m.fields) 2 && field m 0 == s.sharer) in
    if_case (Spares author s) watches
      (λ _.
        inl (
          ap (λ (b : ScreenDrawing). drawn_by author b.segments)
            (receive_watch-drawing sender m s)))
      (λ _.
        if_case (Spares author s) (is_kind m.kind screen_draw && may_draw sender s)
          (λ _. accept_found-Spares c author sender (parse_screen_draw m false) s other)
          (λ _.
            if_case (Spares author s) (is_kind m.kind screen_laser && may_draw sender s)
              (λ _. accept_laser_found-Spares c author sender (parse_screen_laser m false) s)
              (λ _.
                if_case (Spares author s) (is_kind m.kind screen_draw_erase && may_draw sender s)
                  (λ _. erase_found-Spares author sender (parse_screen_erase m) s other)
                  (λ _. inl refl))))

-- Whatever a peer sends to the presenter, what any other author has drawn stays as it is, unless the board is full: then
-- the presenter clears it. In particular no peer draws or erases in the name of another.
pub drawn_by-receive :
    (c : Clock) (author sender : Text) (m : Message) (s : ScreenDrawingSession)
    → s.owner ≡ true
    → (author == sender) ≡ false
    → (drawn_by author (receive c sender m s).drawing.segments ≡ drawn_by author s.drawing.segments)
      ⊎ ((max_draw_segments ≤ length s.drawing.received)
          × ((receive c sender m s).drawing.segments ≡ []))
unfolding receive Spares
drawn_by-receive c author sender m s owner other =
    if_case (Spares author s) (sender == s.local_name) (λ _. inl refl)
      (λ _.
        if_case (Spares author s) s.owner (λ _. receive_owner-Spares c author sender m s other)
          (λ off. absurd (ground (arith, owner))))

-- Whatever a peer sends to the presenter while it is banned or does not watch, the board stays as it is, with its
-- segments, its laser pointers and its erased strokes.
pub drawing-receive :
    (c : Clock) (sender : Text) (m : Message) (s : ScreenDrawingSession)
    → s.owner ≡ true
    → (has sender s.banned ≡ true) ⊎ (has sender s.viewers ≡ false)
    → (receive c sender m s).drawing ≡ s.drawing
unfolding receive receive_owner
drawing-receive c sender m s owner barred =
    let out : may_draw sender s ≡ false = ground (arith, barred) in
    let watches =
      is_kind m.kind screen_draw_watch && (nat_beq (length m.fields) 2 && field m 0 == s.sharer) in
    let same = λ (t : ScreenDrawingSession). t.drawing ≡ s.drawing in
    if_case same (sender == s.local_name) (λ _. refl)
      (λ _.
        if_case same s.owner
          (λ _.
            if_case same watches (λ _. receive_watch-drawing sender m s)
              (λ _.
                if_case same (is_kind m.kind screen_draw && may_draw sender s)
                  (λ h. absurd (ground (arith, out)))
                  (λ _.
                    if_case same (is_kind m.kind screen_laser && may_draw sender s)
                      (λ h. absurd (ground (arith, out)))
                      (λ _.
                        if_case same (is_kind m.kind screen_draw_erase && may_draw sender s)
                          (λ h. absurd (ground (arith, out))) (λ _. refl)))))
          (λ off. absurd (ground (arith, owner))))
