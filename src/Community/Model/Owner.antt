-- ===== src/Community/Model/Owner.antt =====
-- The third pass keeps the owner a member, and what a `rebuild` that succeeds comes to.
use disquisition.Common.{
  ◌≡◌, ◌⊎◌, inl, inr, sym, ◌∙◌, ap, subst, Bool, true, not, ◌&&◌, ◌||◌, Option, none, some, List,
  [], ◌∷◌, arith, Text, text_eq, nat_eq, codes, ◌==◌, ltb, leb, nat_beq, Bool-cases, ◌>>=◌, ◌>>◌,
  guard, length, if_case, >>=-eq-some,
}
use mathlib.Core.Option.{some-injective}
use disquisition.Common.Maps.{insert}
use disquisition.Relay.Router.{is_peer_id}
use disquisition.Community.Model.{
  Channel, Intent, Details, Operation, Toolkit, label, valid_endpoint, profile_details, uuid,
  max_icon_bytes,
}
use disquisition.Community.Model.Log.{
  Checked, contains, put, value_of, check_parents, noted, check_one, check_each, include_all,
}
use disquisition.Community.Model.Authority.{Gathered, is_removal, authorized, could_act}
use disquisition.Community.Model.Replay.{
  Built, new_member, first_channels, replay_create, may_admit, invited, replay_admit,
  replay_removal, replay_profile, set_admin, set_priority, replay_channel, is_type, is_invite,
  replay_change, replay_other, replay_one, replay_each,
}
use disquisition.Community.Model.State.{replayed}
use disquisition.Community.Model.Members.{
  contains-put, contains-put_self, Stays, Other, expel-Stays,
}

module _ (q : Toolkit) (id : Text) (ops : List (Text × Operation)) (owner : Text)
    (roles : List Text) (g : Gathered) where
  replay_admit-Stays :
      (key author : Text) (i : Intent) (b : Built)
      → Stays ops owner b
      → Stays ops owner (replay_admit q id ops owner roles g key author i b)
  unfolding replay_admit Stays
  replay_admit-Stays key author i b h =
      if_case (Stays ops owner)
        (may_admit q id ops owner roles g key author i b
          && invited q id ops owner roles g key author i b)
        (λ _. contains-put i.peer owner _ b.members h) (λ _. h)

  replay_removal-Stays :
      (peer : Text) (b : Built)
      → Stays ops owner b
      → Stays ops owner (replay_removal q id ops owner roles g peer b)
  unfolding replay_removal Other
  replay_removal-Stays peer b h =
      if_case (Stays ops owner) (not (peer == owner) && is_peer_id peer)
        (λ other. expel-Stays ops owner peer b (ground arith) h) (λ _. h)

  replay_profile-Stays :
      (key author : Text) (d : Details) (b : Built)
      → Stays ops owner b
      → Stays ops owner (replay_profile q id ops owner roles g key author d b)
  unfolding replay_profile Stays
  replay_profile-Stays key author d b h =
      if_case (Stays ops owner)
        (contains b.members author
          && (could_act ops owner g b.admissions author key
              && (label q d.name 64 && (valid_endpoint q d.endpoint && profile_details q d))))
        (λ _. contains-put author owner _ b.members h) (λ _. h)

  set_admin-Stays :
      (key peer : Text) (enabled : Option Bool) (b : Built)
      → Stays ops owner b
      → Stays ops owner (set_admin q id ops owner roles g key peer enabled b)
  unfolding Stays
  set_admin-Stays key peer none b h = h
  set_admin-Stays key peer (some enabled) b h =
      if_case (Stays ops owner) (not (peer == owner) && contains b.members peer)
        (λ _. contains-put peer owner _ b.members h) (λ _. h)

  set_priority-Stays :
      (peers : Option (List Text)) (b : Built)
      → Stays ops owner b
      → Stays ops owner (set_priority q id ops owner roles g peers b)
  unfolding Stays
  set_priority-Stays none b h = h
  set_priority-Stays (some peers) b h = h

  replay_channel-Stays :
      (d : Details) (b : Built)
      → Stays ops owner b
      → Stays ops owner (replay_channel q id ops owner roles g d b)
  unfolding replay_channel Stays
  replay_channel-Stays d b h =
      let valid =
        uuid q d.id
        && (label q d.name 80
            && (is_type d.type
                && (leb (length d.topic) 512
                    && (contains b.channels d.id || ltb (length b.channels) 128)))) in
      if_case (Stays ops owner) valid (λ _. h) (λ _. h)

  replay_change-Stays :
      (key : Text) (op : Operation) (b : Built)
      → Stays ops owner b
      → Stays ops owner (replay_change q id ops owner roles g key op b)
  unfolding replay_change Stays
  replay_change-Stays key op b h =
      let d = op.details in
      let P = Stays ops owner in
      if_case P (op.kind == codes "admin" && op.author == owner)
        (λ _. set_admin-Stays key d.peer d.enabled b h)
        (λ _.
          if_case P (op.kind == codes "rename" && label q d.name 80) (λ _. h)
            (λ _.
              if_case P (op.kind == codes "icon")
                (λ _.
                  if_case P (leb (length (q.from_base64 d.bytes)) max_icon_bytes) (λ _. h) (λ _. h))
                (λ _.
                  if_case P (op.kind == codes "channel") (λ _. replay_channel-Stays d b h)
                    (λ _.
                      if_case P (op.kind == codes "delete-channel") (λ _. h)
                        (λ _.
                          if_case P
                            (op.kind == codes "invite" && is_invite q id ops owner roles g d)
                            (λ _. h)
                            (λ _.
                              if_case P (op.kind == codes "priority")
                                (λ _. set_priority-Stays d.peers b h) (λ _. h)))))))

  replay_other-Stays :
      (key : Text) (op : Operation) (b : Built)
      → Stays ops owner b
      → Stays ops owner (replay_other q id ops owner roles g key op b)
  unfolding replay_other Other
  replay_other-Stays key op b h =
      let P = Stays ops owner in
      if_case P (op.kind == codes "admit")
        (λ _. replay_admit-Stays key op.author op.details.intent b h)
        (λ _.
          if_case P (is_removal op.kind && authorized ops owner roles key)
            (λ _. replay_removal-Stays op.details.peer b h)
            (λ _.
              if_case P (op.kind == codes "leave")
                (λ _.
                  if_case P (op.author == owner) (λ _. h)
                    (λ other. expel-Stays ops owner op.author b other h))
                (λ _.
                  if_case P (op.kind == codes "profile")
                    (λ _. replay_profile-Stays key op.author op.details b h)
                    (λ _.
                      if_case P
                        (not (contains b.members op.author)
                          || (not (could_act ops owner g b.admissions op.author key)
                              || not (authorized ops owner roles key)))
                        (λ _. h) (λ _. replay_change-Stays key op b h)))))

  -- The origin makes the owner a member.
  replay_create-Stays :
      (key : Text) (d : Details) (b c : Built)
      → replay_create q id ops owner roles g key d b ≡ some c
      → Stays ops owner c
  unfolding replay_create Stays
  replay_create-Stays key d b c h =
      let named = label q d.name 80 && (label q d.member_name 64 && valid_endpoint q d.endpoint) in
      let few = leb (length d.channels) 128 in
      let put_in = λ (channels : List (Text × Channel)). some (record b {
        name = d.name;
        admissions = insert owner key b.admissions;
        members = put owner (new_member owner d.member_name d.endpoint true) b.members;
        channels = channels;
      }) in
      let (channels, _, e) =
        >>=-eq-some
          (guard named >> guard few >> first_channels q id ops owner roles g d.channels b.channels)
          put_in h in
      subst (λ (t : Built). contains t.members owner ≡ true) (some-injective _ c e)
        (contains-put_self owner (new_member owner d.member_name d.endpoint true) b.members)

  -- After each operation, no origin has been met or the owner is a member.
  abbrev Met : Checked → Built → Type 0
  Met c b = (c.roots ≡ 0) ⊎ Stays ops owner b

  replay_one-Met :
      (key : Text) (op : Operation) (c d : Checked) (b e : Built)
      → check_one ops owner key op c ≡ some d
      → replay_one q id ops owner roles g key op b ≡ some e
      → Met c b
      → Met d e
  unfolding replay_one
  replay_one-Met key op c d b e checked replayed met =
      elim (Bool-cases (op.kind == codes "create")) [
        | inl origin ↦ inr (replay_create-Stays key op.details b e (rw origin at replayed))
        | inr later ↦
            let step : replay_other q id ops owner roles g key op b ≡ e =
              some-injective _ e (rw later at replayed) in
            let check : (guard (not (nat_beq (length op.parents) 0))
                  >> check_parents ops op.clock op.parents [] 0
                  >>= λ next.
                      (guard (nat_beq op.clock next)
                        >> some (
                            noted owner key op
                              (record c { non_heads = include_all op.parents c.non_heads }))))
                ≡ some d =
              rw later at checked in
            let (next, _, h1) =
              >>=-eq-some
                (guard (not (nat_beq (length op.parents) 0))
                  >> check_parents ops op.clock op.parents [] 0)
                (λ next.
                  (guard (nat_beq op.clock next)
                    >> some (
                        noted owner key op
                          (record c { non_heads = include_all op.parents c.non_heads }))))
                check in
            let (_, _, h2) =
              >>=-eq-some (guard (nat_beq op.clock next))
                (λ _. some (
                  noted owner key op (record c { non_heads = include_all op.parents c.non_heads })))
                h1 in
            let roots : c.roots ≡ d.roots = ap (λ (t : Checked). t.roots) (some-injective _ d h2) in
            elim met [
              | inl none_yet ↦ inl (sym roots ∙ none_yet)
              | inr stays ↦ inr (subst (Stays ops owner) step (replay_other-Stays key op b stays))
            ]
      ]

  pub replay_each-Met :
      (ks : List Text) (c d : Checked) (b e : Built)
      → check_each ops owner ks c ≡ some d
      → replay_each q id ops owner roles g ks b ≡ some e
      → Met c b
      → Met d e
  unfolding check_each replay_each
  replay_each-Met [] c d b e checked replayed met =
      subst (λ t. Met t e) (some-injective c d checked)
        (subst (λ t. Met c t) (some-injective b e replayed) met)
  replay_each-Met (key ∷ ks) c d b e checked replayed met =
      let op = value_of ops key in
      let (c1, one, rest) =
        >>=-eq-some (check_one ops owner key op c) (check_each ops owner ks) checked in
      let (b1, next, more) =
        >>=-eq-some (replay_one q id ops owner roles g key op b)
          (replay_each q id ops owner roles g ks) replayed in
      replay_each-Met ks c1 d b1 e rest more (replay_one-Met key op c c1 b b1 one next met)
