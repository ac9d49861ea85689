-- ===== src/Drawing/Session/Follow.antt =====
-- What a viewer makes of the snapshot that the presenter sends it.
use disquisition.Common.{
  ◌≤◌, ◌<◌, ◌≡◌, inl, inr, refl, sym, ◌∙◌, ap, subst, Bool, true, false, ◌&&◌, ◌||◌, some, List, [],
  ◌∷◌, ◌++◌, arith, Text, text_eq, nat_eq, text_beq, codes, ◌==◌, beq_sym, leb, nat_beq, Bool-cases,
  length, if_case, All, length-append, append_assoc, append-nil,
}
use disquisition.Common.Int.{ℤ, int_eq}
use disquisition.Common.Sets.{has}
use disquisition.Protocol.Frame.{Message, type_byte}
use disquisition.Protocol.Records.{
  ScreenDraw, max_draw_segments, is_kind, field, parse_epoch, parse_screen_draw,
  screen_draw_message,
}
use disquisition.Protocol.Records.Draw.{IsValid, parse-screen_draw_message}
use disquisition.Protocol.Records.Fields.{IsEpoch, parse_epoch-to_string}
use disquisition.Drawing.Board.{ScreenDrawing, key_of, set_state, set_banned, add, seen_active}
use disquisition.Drawing.Board.Laws.{Inv, IsDistinct, keys_of, has-keys_of_snoc}
use disquisition.Drawing.Session.{
  Clock, ScreenDrawingSession, with_drawing, flag, state_message, history_messages, snapshot,
}
use disquisition.Drawing.Session.Receive.{
  is_state, follow_found, add_found, receive_viewer, receive, receive_all,
}

-- A viewer that waits for an answer of the presenter.
pub record IsWaiting (o v : ScreenDrawingSession) : Type 0 where
  pub viewing : v.owner ≡ false
  pub watching : v.watching ≡ true
  pub sharer : v.sharer ≡ o.sharer
  pub stranger : (o.sharer == v.local_name) ≡ false

-- A viewer that has what the presenter drew first.
record Follows (name : Text) (o v : ScreenDrawingSession) (done : List ScreenDraw) : Type 0 where
  waiting : IsWaiting o v
  answered : v.retry ≡ false
  enabled : v.drawing.enabled ≡ o.drawing.enabled
  epoch : v.drawing.epoch ≡ o.drawing.epoch
  banned : v.drawing.banned ≡ has name o.banned
  segments : v.drawing.segments ≡ done
  known : (k : Text) → has k v.drawing.received ≡ has k (keys_of done)
  count : length v.drawing.received ≡ length done
  removed : v.drawing.removed ≡ []

-- What is drawn on top.
drawn_on : Clock → ScreenDraw → ScreenDrawingSession → ScreenDrawingSession
drawn_on c d v =
    let b = v.drawing in
    with_drawing
      (seen_active c.elapsed d (record b {
        received = key_of d.author d.id ∷ b.received;
        segments = b.segments ++ (d ∷ []);
      }))
      v

-- What the presenter sends gets through.
receive-receive_viewer :
    (c : Clock) (o v : ScreenDrawingSession) (m : Message)
    → IsWaiting o v
    → receive c o.sharer m v ≡ receive_viewer c m v
unfolding receive
receive-receive_viewer c o v m w =
    let ours : (o.sharer == v.sharer) ≡ true =
      (text_eq.beq_iff o.sharer v.sharer).1 (sym w.sharer) in
    rw (w.stranger, w.viewing, w.watching, ours)

state_dispatched :
    (c : Clock) (v : ScreenDrawingSession) (m : Message)
    → is_state m v ≡ true
    → receive_viewer c m v ≡ follow_found m (parse_epoch (field m 2)) v
unfolding receive_viewer
state_dispatched c v m h = rw h

draw_dispatched :
    (c : Clock) (v : ScreenDrawingSession) (d : ScreenDraw)
    → receive_viewer c (screen_draw_message d true) v
      ≡ add_found c (parse_screen_draw (screen_draw_message d true) true) v
unfolding receive_viewer is_state is_kind type_byte screen_draw_message
draw_dispatched c v d = refl

add_drawn :
    {name : Text} (c : Clock) (o v : ScreenDrawingSession) (done : List ScreenDraw) (d : ScreenDraw)
    → Follows name o v done
    → d.epoch ≡ o.drawing.epoch
    → o.drawing.enabled ≡ true
    → has (key_of d.author d.id) (keys_of done) ≡ false
    → length done < max_draw_segments
    → with_drawing (add c.elapsed d v.drawing) v ≡ drawn_on c d v
unfolding add drawn_on has
add_drawn {name} c o v done d f now on new few =
    let same : (d.epoch == v.drawing.epoch) ≡ true =
      (int_eq.beq_iff d.epoch v.drawing.epoch).1 (now ∙ sym f.epoch) in
    let space : leb max_draw_segments (length v.drawing.received) ≡ false =
      ground (arith, f.count) in
    rw (f.enabled, on, same, space, f.removed, f.known (key_of d.author d.id), new) refl

receive-screen_draw_message :
    {name : Text} (c : Clock) (o v : ScreenDrawingSession) (done : List ScreenDraw) (d : ScreenDraw)
    → Follows name o v done
    → IsValid true d
    → d.sharer ≡ o.sharer
    → d.epoch ≡ o.drawing.epoch
    → o.drawing.enabled ≡ true
    → has (key_of d.author d.id) (keys_of done) ≡ false
    → length done < max_draw_segments
    → receive c o.sharer (screen_draw_message d true) v ≡ drawn_on c d v
unfolding add_found
receive-screen_draw_message {name} c o v done d f valid from now on new few =
    let ours : (d.sharer == v.sharer) ≡ true =
      (text_eq.beq_iff d.sharer v.sharer).1 (from ∙ sym f.waiting.sharer) in
    receive-receive_viewer c o v (screen_draw_message d true) f.waiting
    ∙ draw_dispatched c v d
    ∙ ap (λ r. add_found c r v) (parse-screen_draw_message true d valid)
    ∙ rw ours (add_drawn c o v done d f now on new few)

drawn_on-Follows :
    {name : Text} (c : Clock) (o v : ScreenDrawingSession) (done : List ScreenDraw) (d : ScreenDraw)
    → Follows name o v done
    → Follows name o (drawn_on c d v) (done ++ (d ∷ []))
unfolding drawn_on has
drawn_on-Follows {name} c o v done d f =
    let b = v.drawing in
    let key = key_of d.author d.id in
    let known : (k : Text) → has k (key ∷ b.received) ≡ has k (keys_of (done ++ (d ∷ []))) =
      λ k. ground (arith, f.known k, has-keys_of_snoc k done d) in
    let count : length (key ∷ b.received) ≡ length (done ++ (d ∷ [])) =
      omega (arith, f.count, length-append done (d ∷ [])) in
    if_case (λ (t : ScreenDrawing). Follows name o (with_drawing t v) (done ++ (d ∷ [])))
      (nat_beq (length d.author) 0)
      (λ _. record {
        waiting = record {
          viewing = f.waiting.viewing;
          watching = f.waiting.watching;
          sharer = f.waiting.sharer;
          stranger = f.waiting.stranger;
        };
        answered = f.answered;
        enabled = f.enabled;
        epoch = f.epoch;
        banned = f.banned;
        segments = ap (λ l. l ++ (d ∷ [])) f.segments;
        known = known;
        count = count;
        removed = f.removed;
      })
      (λ _. record {
        waiting = record {
          viewing = f.waiting.viewing;
          watching = f.waiting.watching;
          sharer = f.waiting.sharer;
          stranger = f.waiting.stranger;
        };
        answered = f.answered;
        enabled = f.enabled;
        epoch = f.epoch;
        banned = f.banned;
        segments = ap (λ l. l ++ (d ∷ [])) f.segments;
        known = known;
        count = count;
        removed = f.removed;
      })

has-keys_of_append :
    (k : Text) (done ds : List ScreenDraw)
    → has k (keys_of (done ++ ds)) ≡ (has k (keys_of done) || has k (keys_of ds))
unfolding has
has-keys_of_append k [] ds = refl
has-keys_of_append k (t ∷ done) ds = ground (arith, has-keys_of_append k done ds)

-- The first of the rest is not among what is there.
next_new :
    (done : List ScreenDraw) (d : ScreenDraw) (ds : List ScreenDraw)
    → IsDistinct (done ++ (d ∷ ds))
    → has (key_of d.author d.id) (keys_of done) ≡ false
unfolding has
next_new [] d ds h = refl
next_new (t ∷ done) d ds (apart, h) =
    let k = key_of d.author d.id in
    ground (
      arith,
      next_new done d ds h,
      has-keys_of_append (key_of t.author t.id) done (d ∷ ds),
      beq_sym {A = Text} k (key_of t.author t.id),
    )

history-Follows :
    {name : Text} (c : Clock) (o v : ScreenDrawingSession) (done ds : List ScreenDraw)
    → Follows name o v done
    → o.drawing.enabled ≡ true
    → All (IsValid true) ds
    → All (λ d. d.sharer ≡ o.sharer) ds
    → All (λ d. d.epoch ≡ o.drawing.epoch) ds
    → IsDistinct (done ++ ds)
    → length (done ++ ds) ≤ max_draw_segments
    → Follows name o (receive_all c o.sharer (history_messages ds) v) (done ++ ds)
unfolding receive_all
history-Follows {name} c o v done [] f on valid from now distinct few =
    subst (λ l. Follows name o v l) (sym (append-nil done)) f
history-Follows {name} c o v done (d ∷ ds) f on (ok, valid) (ours, from) (t, now) distinct few =
    let assoc : (done ++ (d ∷ [])) ++ ds ≡ done ++ (d ∷ ds) = append_assoc done (d ∷ []) ds in
    let received =
      receive-screen_draw_message c o v done d f ok ours t on (next_new done d ds distinct)
        (omega (arith, length-append done (d ∷ ds))) in
    subst
      (λ l.
        Follows name o
          (receive_all c o.sharer (history_messages ds)
            (receive c o.sharer (screen_draw_message d true) v))
          l)
      assoc
      (history-Follows c o (receive c o.sharer (screen_draw_message d true) v) (done ++ (d ∷ [])) ds
        (subst (λ w. Follows name o w (done ++ (d ∷ []))) (sym received)
          (drawn_on-Follows c o v done d f))
        on valid from now (subst IsDistinct (sym assoc) distinct)
        (subst (λ l. length l ≤ max_draw_segments) (sym assoc) few))

flag_read : (b : Bool) → (flag b == codes "1") ≡ b
unfolding text_beq
flag_read true = refl
flag_read false = refl

is_state-state_message :
    (o v : ScreenDrawingSession)
    → v.sharer ≡ o.sharer
    → is_state (state_message v.local_name o) v ≡ true
unfolding is_state state_message is_kind type_byte text_beq
is_state-state_message o v e =
    let ours : (o.sharer == v.sharer) ≡ true = (text_eq.beq_iff o.sharer v.sharer).1 (sym e) in
    elim (Bool-cases (has v.local_name o.banned)) [
      | inl banned ↦ elim (Bool-cases o.drawing.enabled) [
        | inl on ↦ rw (banned, on, ours) refl
        | inr off ↦ rw (banned, off, ours) refl
      ]
      | inr free ↦ elim (Bool-cases o.drawing.enabled) [
        | inl on ↦ rw (free, on, ours) refl
        | inr off ↦ rw (free, off, ours) refl
      ]
    ]

ban_read :
    (o : ScreenDrawingSession) (viewer : Text)
    → (nat_beq (length (state_message viewer o).fields) 4
        && field (state_message viewer o) 3 == codes "0")
      ≡ has viewer o.banned
unfolding state_message text_beq
ban_read o viewer = elim (Bool-cases (has viewer o.banned)) [
  | inl banned ↦ rw banned refl
  | inr free ↦ rw free refl
]

set_banned_read : (banned : Bool) (b : ScreenDrawing) → (set_banned banned b).banned ≡ banned
unfolding set_banned
set_banned_read true b = ground arith
set_banned_read false b = refl

state-Follows :
    (c : Clock) (o v : ScreenDrawingSession)
    → IsWaiting o v
    → IsEpoch o.drawing.epoch
    → Follows v.local_name o (receive c o.sharer (state_message v.local_name o) v) []
unfolding follow_found set_state
state-Follows c o v w later =
    let m = state_message v.local_name o in
    let read : parse_epoch (field m 2) ≡ some o.drawing.epoch =
      unfold state_message in parse_epoch-to_string o.drawing.epoch later in
    let got : receive c o.sharer m v ≡ follow_found m (some o.drawing.epoch) v =
      receive-receive_viewer c o v m w
      ∙ state_dispatched c v m (is_state-state_message o v w.sharer)
      ∙ ap (λ e. follow_found m e v) read in
    subst (λ r. Follows v.local_name o r []) (sym got)
      (record {
        waiting = record {
          viewing = w.viewing;
          watching = w.watching;
          sharer = w.sharer;
          stranger = w.stranger;
        };
        answered = refl;
        enabled = unfold state_message in flag_read o.drawing.enabled;
        epoch = refl;
        banned = set_banned_read _ v.drawing ∙ ban_read o v.local_name;
        segments = refl;
        known = λ k. unfold has in refl;
        count = refl;
        removed = refl;
      })

-- A presenter whose board can be sent.
pub record IsSendable (o : ScreenDrawingSession) : Type 0 where
  pub board : Inv o.drawing
  pub valid : All (IsValid true) o.drawing.segments
  pub sharer : All (λ d. d.sharer ≡ o.sharer) o.drawing.segments
  pub epoch : IsEpoch o.drawing.epoch

-- A board as the others see it: whether it is enabled, its epoch, and what is drawn on it.
abbrev pub shown : ScreenDrawing → Bool × ℤ × List ScreenDraw
shown b = (b.enabled, b.epoch, b.segments)

snapshot-Follows :
    (c : Clock) (o v : ScreenDrawingSession)
    → IsSendable o
    → IsWaiting o v
    → Follows v.local_name o (receive_all c o.sharer (snapshot v.local_name o) v) o.drawing.segments
unfolding receive_all snapshot
snapshot-Follows c o v can w =
    let f = state-Follows c o v w can.epoch in
    let next = receive c o.sharer (state_message v.local_name o) v in
    elim (Bool-cases o.drawing.enabled) [
      | inl on ↦
          history-Follows c o next [] o.drawing.segments f on can.valid can.sharer can.board.epochs
            can.board.distinct (omega (arith, can.board.few, can.board.fits))
      | inr off ↦
          subst (λ l. Follows v.local_name o (receive_all c o.sharer (history_messages l) next) l)
            (sym (can.board.idle off)) f
    ]

-- Let the presenter's board hold its invariant, its segments valid, carrying its name, and its epoch be one that can be
-- read; let the viewer watch that presenter and have another name. Then the viewer that receives what `sendSnapshot`
-- sends, in order, shows the presenter's board, whatever its own was before: enabled or not, the epoch, and
-- the segments in their order. It may draw just if it is not banned, and it no longer retries.
pub receive_all-snapshot :
    (c : Clock) (o v : ScreenDrawingSession)
    → IsSendable o
    → IsWaiting o v
    → (shown (receive_all c o.sharer (snapshot v.local_name o) v).drawing ≡ shown o.drawing)
      × ((receive_all c o.sharer (snapshot v.local_name o) v).drawing.banned
          ≡ has v.local_name o.banned)
      × ((receive_all c o.sharer (snapshot v.local_name o) v).retry ≡ false)
receive_all-snapshot c o v can w =
    let f = snapshot-Follows c o v can w in
    (ground (arith, f.enabled, f.epoch, f.segments), f.banned, f.answered)
