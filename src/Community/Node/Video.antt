-- ===== src/Community/Node/Video.antt =====
-- Node: the queue of video of a link.
use disquisition.Common.{
  ℕ, ◌+◌, ◌-◌, ◌≤◌, ◌≡◌, ◌⊎◌, inl, inr, refl, ap, drop, ◌<◌, List, [], ◌∷◌, ◌++◌, arith, text_eq,
  nat_eq, ltb, if_case,
}
use disquisition.Community.Model.{Toolkit}
use disquisition.Community.Node.{Message, Link, Network}
use disquisition.Community.Node.Sending.{pumped, framed_size, video_pace_bytes}

module _ (q : Toolkit) (net : Network) where
  unfoldable pub sizes : List Message → ℕ
  sizes [] = 0
  sizes (msg ∷ msgs) = framed_size q net msg + sizes msgs

  abbrev front_size : List Message → ℕ
  front_size [] = 0
  front_size (msg ∷ msgs) = framed_size q net msg

  -- What pumping makes of a queue, a link and what is written.
  pub record IsPumped (video : List Message) (link : Link) (written : List Message) (after : Link)
      : Type 0 where
    pub order : written ++ after.video ≡ video
    pub queued : after.video_bytes + sizes written ≡ link.video_bytes
    pub backlogged : after.backlog ≡ link.backlog + sizes written
    pub rests : (after.video ≡ []) ⊎ (video_pace_bytes q net ≤ after.backlog)
    pub paced :
        (before later : List Message) (msg : Message)
        → written ≡ before ++ msg ∷ later
        → link.backlog + sizes before < video_pace_bytes q net

  none_written : (before later : List Message) (m : Message) → [] ≡ before ++ m ∷ later → ⊥
  none_written [] later m e = cc
  none_written (b ∷ before) later m e = cc

  cons_paced :
      (msg : Message) (video : List Message) (link : Link) (written : List Message) (after : Link)
      → link.backlog < video_pace_bytes q net
      → IsPumped video
          (record link {
            video_bytes = link.video_bytes - framed_size q net msg;
            backlog = link.backlog + framed_size q net msg;
          })
          written
          after
      → (before later : List Message) (m : Message) → msg ∷ written ≡ before ++ m ∷ later
      → link.backlog + sizes before < video_pace_bytes q net
  unfolding sizes
  cons_paced msg video link written after low h [] later m e = omega (arith, low)
  cons_paced msg video link written after low h (b ∷ before) later m e =
      let same : framed_size q net msg ≡ framed_size q net b = ap (λ t. front_size t) e in
      omega (arith, same, h.paced before later m (ap (drop 1) e))

  cons-IsPumped :
      (msg : Message) (video : List Message) (link : Link) (written : List Message) (after : Link)
      → framed_size q net msg ≤ link.video_bytes
      → link.backlog < video_pace_bytes q net
      → IsPumped video
          (record link {
            video_bytes = link.video_bytes - framed_size q net msg;
            backlog = link.backlog + framed_size q net msg;
          })
          written
          after
      → IsPumped (msg ∷ video) link (msg ∷ written) after
  unfolding sizes
  cons-IsPumped msg video link written after fits low h = record {
    order = ap (λ t. msg ∷ t) h.order;
    queued = omega (arith, h.queued, fits);
    backlogged = omega (arith, h.backlogged);
    rests = h.rests;
    paced = λ before later m e. cons_paced msg video link written after low h before later m e;
  }

  -- If the count of the queue's bytes is right, then frames are written from its front, in order, and none is lost; the
  -- counts stay right; each frame is written at a backlog of under 16 KB, the frames before it included; and frames are
  -- left only if the backlog has come to 16 KB.
  pub pumped-IsPumped :
      (video : List Message) (link : Link)
      → link.video_bytes ≡ sizes video
      → (let p = pumped q net video link in IsPumped video link p.0 p.1)
  unfolding pumped sizes
  pumped-IsPumped [] link h = record {
    order = refl;
    queued = omega arith;
    backlogged = omega arith;
    rests = inl refl;
    paced = λ before later m e. absurd (none_written before later m e);
  }
  pumped-IsPumped (msg ∷ video) link h =
      let next : Link = record link {
        video_bytes = link.video_bytes - framed_size q net msg;
        backlog = link.backlog + framed_size q net msg;
      } in
      let rest = pumped q net video next in
      if_case (λ (r : List Message × Link). IsPumped (msg ∷ video) link r.0 r.1)
        (ltb link.backlog (video_pace_bytes q net))
        (λ low.
          cons-IsPumped msg video link rest.0 rest.1 (omega (arith, h)) (ground (arith, low))
            (pumped-IsPumped video next (omega (arith, h))))
        (λ full. record {
          order = refl;
          queued = omega arith;
          backlogged = omega arith;
          rests = inr (ground (arith, full));
          paced = λ before later m e. absurd (none_written before later m e);
        })
