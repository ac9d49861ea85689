-- ===== src/Drawing/Session/Requests.antt =====
-- The batches of an erasure, and the requests of a viewer that gets no answer.
use disquisition.Common.{
  ℕ, zero, suc, ◌≤◌, ◌≡◌, refl, sym, ◌∙◌, ap, subst, true, false, not, List, [], ◌∷◌, ◌++◌, arith,
  Text, text_eq, nat_eq, length, take, drop, if_case, All, take-append-drop, length-take,
  length-drop,
}
use disquisition.Protocol.Frame.{Message}
use disquisition.Protocol.Records.{max_erase_strokes}
use disquisition.Drawing.Board.{set_state}
use disquisition.Drawing.Session.{ScreenDrawingSession, batches, watch}
use disquisition.Drawing.Session.Events.{start, expire_request, retry_timeout}

abbrev pub concat : List (List ℕ) → List ℕ
concat [] = []
concat (b ∷ bs) = b ++ concat bs

-- As much fuel as there are strokes is enough: the batches are all the strokes, in order, and each batch has one to 128
-- of them, which is what a request may carry.
pub concat-batches :
    (fuel : ℕ) (ids : List ℕ)
    → length ids ≤ fuel
    → (concat (batches fuel ids) ≡ ids)
      × All (λ b. (1 ≤ length b) × (length b ≤ max_erase_strokes)) (batches fuel ids)
unfolding batches
concat-batches zero [] h = (refl, tt)
concat-batches zero (id ∷ ids) h = elim h [ ]
concat-batches (suc fuel) [] h = (refl, tt)
concat-batches (suc fuel) (id ∷ ids) h =
    let all = id ∷ ids in
    let rest = drop max_erase_strokes all in
    let (joined, sized) =
      concat-batches fuel rest (omega (arith, length-drop max_erase_strokes all)) in
    (
      ap (λ l. take max_erase_strokes all ++ l) joined ∙ take-append-drop max_erase_strokes all,
      (
        (
          omega (arith, length-take max_erase_strokes all),
          omega (arith, length-take max_erase_strokes all),
        ),
        sized,
      ),
    )

unfoldable pub retry_times : ℕ → ScreenDrawingSession → ScreenDrawingSession
retry_times zero s = s
retry_times (suc n) s = retry_times n (retry_timeout s)

-- A timer that is stopped does nothing.
retry_timeout_idle : (s : ScreenDrawingSession) → s.retry ≡ false → retry_timeout s ≡ s
unfolding retry_timeout
retry_timeout_idle s idle =
    if_case (λ (t : ScreenDrawingSession). t ≡ s) (not s.retry) (λ _. refl)
      (λ on. absurd (ground (arith, idle)))

retry_times_idle : (n : ℕ) (s : ScreenDrawingSession) → s.retry ≡ false → retry_times n s ≡ s
unfolding retry_times
retry_times_idle zero s idle = refl
retry_times_idle (suc n) s idle = rw (retry_timeout_idle s idle) (retry_times_idle n s idle)

abbrev pub asks : ScreenDrawingSession → Text × Message
asks s = (s.sharer, watch true s)

-- What a session without an answer comes to.
unfoldable GivesUp : ScreenDrawingSession → ScreenDrawingSession → Type 0
GivesUp s t =
    (t.sent ≡ s.sent ++ (asks s ∷ asks s ∷ asks s ∷ asks s ∷ asks s ∷ []))
    × (t.retry ≡ false)
    × (t.drawing.enabled ≡ false)
    × (t.drawing.segments ≡ [])

append_five {ℓ} :
    {A : Type ℓ} (l : List A) (a : A)
    → ((((l ++ (a ∷ [])) ++ (a ∷ [])) ++ (a ∷ [])) ++ (a ∷ [])) ++ (a ∷ [])
      ≡ l ++ (a ∷ a ∷ a ∷ a ∷ a ∷ [])
append_five [] a = refl
append_five (b ∷ l) a = ap (λ t. b ∷ t) (append_five l a)

unanswered :
    (s : ScreenDrawingSession)
    → GivesUp (record s { owner = false }) (retry_times 5 (start (record s { owner = false })))
unfolding retry_times start retry_timeout expire_request set_state watch GivesUp
unanswered s = (append_five s.sent (asks s), refl, refl, refl)

-- A viewer that starts and gets no answer asks the presenter five times in all, once at the start and once for each of
-- four runs of the timer; with the fifth run the timer stops, the board is disabled and empty, and nothing more is sent,
-- however often the timer would run.
pub retry_times-start :
    (n : ℕ) (s : ScreenDrawingSession)
    → s.owner ≡ false
    → let t = retry_times n (retry_times 5 (start s)) in
      (t.sent ≡ s.sent ++ (asks s ∷ asks s ∷ asks s ∷ asks s ∷ asks s ∷ []))
      × (t.retry ≡ false)
      × (t.drawing.enabled ≡ false)
      × (t.drawing.segments ≡ [])
unfolding GivesUp
retry_times-start n s viewer =
    let given_up : GivesUp s (retry_times 5 (start s)) =
      subst (λ o. GivesUp (record s { owner = o }) (retry_times 5 (start (record s { owner = o }))))
        (sym viewer) (unanswered s) in
    subst (GivesUp s) (sym (retry_times_idle n (retry_times 5 (start s)) (given_up.1))) given_up
