-- ===== src/Community/Node/Window.antt =====
-- Node: which packets it has handed on, and that none is handed on twice in a row of 4096.
use disquisition.Common.{
  ℕ, zero, suc, ◌+◌, ◌≤◌, ◌<◌, min, ◌≡◌, refl, sym, ◌∙◌, ap, subst, true, false, not, ◌&&◌, ◌||◌,
  List, [], ◌∷◌, ◌++◌, arith, Text, text_eq, nat_eq, beq_sym, ltb, leb, if◌then◌else◌, length, take,
  drop, if_case, get_or,
}
use disquisition.Common.Sets.{has, include, exclude}
use disquisition.Community.Model.{Toolkit, is_empty}
use disquisition.Community.Node.{Message, Link, Effect, packet_received, Node, Network}
use disquisition.Community.Node.Packets.{
  receive_packet, message_key, remember, valid_packet, dropped_first,
}
use disquisition.Community.Node.Sends.{is_delivery, Sends}
use disquisition.Community.Node.Keeps.{Stable}
use disquisition.Common.Sets.{has-include, has-exclude}
use disquisition.Community.Node.Alone.{set_voice_keeps}
use disquisition.Common.{length-append, length-take}
use disquisition.Community.Node.Events.{Event, occur_all, occur_all_keeps}

-- The keys of the packets that were handed on, the newest first.
abbrev pub delivered : List Effect → List Text
delivered [] = []
delivered (packet_received cid channel peer kind d ∷ es) = message_key peer cid d.id ∷ delivered es
delivered (e ∷ es) = delivered es

abbrev pub reverse : List Text → List Text
reverse [] = []
reverse (k ∷ ks) = reverse ks ++ k ∷ []

abbrev Distinct : List Text → Type 0
Distinct [] = Unit
Distinct (k ∷ ks) = (has k ks ≡ false) × Distinct ks

abbrev pub window : ℕ
window = 4096

-- No key is among the 4096 before it.
abbrev pub IsFresh : List Text → Type 0
IsFresh [] = Unit
IsFresh (k ∷ ks) = (has k (take window ks) ≡ false) × IsFresh ks

-- The memory of a node is of the last 4096 packets, and none of all packets was handed on while it was remembered.
abbrev pub Remembers : List Text → List Text → List Text → Type 0
Remembers order seen ds =
    (order ≡ reverse (take window ds))
    × ((k : Text) → has k seen ≡ has k order)
    × Distinct order
    × IsFresh ds

abbrev pub HasMemory : Node → Type 0
HasMemory n = Remembers n.message_order n.seen_messages (delivered n.out)

has-append : (k : Text) (xs ys : List Text) → has k (xs ++ ys) ≡ (has k xs || has k ys)
unfolding has
has-append k [] ys = refl
has-append k (x ∷ xs) ys = ground (arith, has-append k xs ys)

has-reverse : (k : Text) (xs : List Text) → has k (reverse xs) ≡ has k xs
unfolding has
has-reverse k [] = refl
has-reverse k (x ∷ xs) = ground (arith, has-append k (reverse xs) (x ∷ []), has-reverse k xs)

length-reverse : (xs : List Text) → length (reverse xs) ≡ length xs
length-reverse [] = refl
length-reverse (x ∷ xs) = omega (arith, length-append (reverse xs) (x ∷ []), length-reverse xs)

snoc-Distinct :
    (xs : List Text) (k : Text) → Distinct xs → has k xs ≡ false → Distinct (xs ++ k ∷ [])
unfolding has
snoc-Distinct [] k h f = (refl, tt)
snoc-Distinct (x ∷ xs) k (fresh, h) f = (
  ground (arith, has-append x xs (k ∷ []), beq_sym {A = Text} x k),
  snoc-Distinct xs k h (ground arith),
)

-- Of the newest `n + 1`, the oldest is the first that is remembered.
first_of :
    (n : ℕ) (xs : List Text)
    → n < length xs
    → (y : Text) × (reverse (take (suc n) xs) ≡ y ∷ reverse (take n xs))
first_of n [] h = absurd (omega arith)
first_of zero (x ∷ xs) h = (x, refl)
first_of (suc n) (x ∷ xs) h =
    let (y, e) = first_of n xs (omega arith) in (y, ap (λ t. t ++ x ∷ []) e)

take_all : (n : ℕ) (xs : List Text) → length xs ≤ n → take (suc n) xs ≡ take n xs
take_all zero [] h = refl
take_all (suc n) [] h = refl
take_all zero (x ∷ xs) h = absurd (omega arith)
take_all (suc n) (x ∷ xs) h = ap (λ t. x ∷ t) (take_all n xs (omega arith))

-- Remembering a key that was not, in the order and in the set.
abbrev kept_with : Toolkit → Network → Text → List Text → List Text → List Text × List Text
kept_with q net key order seen =
    let longer = order ++ key ∷ [] in
    if ltb window (length longer)
    then dropped_first q net longer (include key seen)
    else (longer, include key seen)

joined_set :
    (k j : Text) (order seen : List Text)
    → has j seen ≡ has j order
    → has j (include k seen) ≡ has j (order ++ k ∷ [])
unfolding has
joined_set k j order seen same =
    ground (arith, has-include k j seen, has-append j order (k ∷ []), same)

tail_new : (k y : Text) (rest : List Text) → has k (y ∷ rest) ≡ false → has k rest ≡ false
unfolding has
tail_new k y rest h = ground arith

shifted_set :
    (k y j : Text) (rest seen : List Text)
    → has j seen ≡ has j (y ∷ rest)
    → has y rest ≡ false
    → has k (y ∷ rest) ≡ false
    → has j (exclude y (include k seen)) ≡ has j (rest ++ k ∷ [])
unfolding has
shifted_set k y j rest seen same alone new = ground (
  arith,
  has-exclude y j (include k seen),
  has-include k j seen,
  has-append j rest (k ∷ []),
  same,
  text_eq.beq_iff y j,
  text_eq.beq_iff k j,
  text_eq.beq_iff y k,
)

long_enough : (a b c : ℕ) → a ≡ min window b → c ≡ a + 1 → ltb window c ≡ true → 4095 < b
long_enough a b c e f h = ground arith

short_enough : (a b c : ℕ) → a ≡ min window b → c ≡ a + 1 → ltb window c ≡ false → b ≤ 4095
short_enough a b c e f h = ground arith

unremembered :
    (k : Text) (order seen ds : List Text)
    → Remembers order seen ds
    → has k seen ≡ false
    → (has k order ≡ false) × (has k (take window ds) ≡ false)
unremembered k order seen ds (e, same, apart, fresh) new =
    let gone = sym (same k) ∙ new in
    (gone, sym (has-reverse k (take window ds)) ∙ ap (has k) (sym e) ∙ gone)

-- While there is room.
roomy :
    (k : Text) (order seen ds : List Text)
    → Remembers order seen ds
    → has k seen ≡ false
    → length ds ≤ 4095
    → Remembers (order ++ k ∷ []) (include k seen) (k ∷ ds)
unfolding has
roomy k order seen ds h new room =
    let (e, same, apart, fresh) = h in
    let (gone, old) = unremembered k order seen ds h new in
    (
      ap (λ t. t ++ k ∷ []) (e ∙ ap reverse (take_all 4095 ds room)),
      (λ j. joined_set k j order seen (same j)),
      snoc-Distinct order k apart gone,
      (old, fresh),
    )

-- The oldest makes room.
full :
    (k y : Text) (rest seen ds : List Text)
    → Remembers (y ∷ rest) seen ds
    → has k seen ≡ false
    → reverse (take window ds) ≡ y ∷ reverse (take 4095 ds)
    → Remembers (rest ++ k ∷ []) (exclude y (include k seen)) (k ∷ ds)
unfolding has
full k y rest seen ds h new first =
    let (e, same, (alone, apart), fresh) = h in
    let (gone, old) = unremembered k (y ∷ rest) seen ds h new in
    (
      ap (λ t. t ++ k ∷ []) (ap (drop 1) (e ∙ first)),
      (λ j. shifted_set k y j rest seen (same j) alone gone),
      snoc-Distinct rest k apart (tail_new k y rest gone),
      (old, fresh),
    )

length-remembered :
    (order seen ds : List Text) → Remembers order seen ds → length order ≡ min window (length ds)
length-remembered order seen ds (e, same, apart, fresh) =
    ap length e ∙ length-reverse (take window ds) ∙ length-take window ds

first_key : {y z : Text} {xs ys : List Text} → y ∷ xs ≡ z ∷ ys → y ≡ z
first_key {y} e = ap (λ t. get_or t 0 y) e

kept_drop :
    (q : Toolkit) (net : Network) (k : Text) (order seen ds : List Text)
    → Remembers order seen ds
    → has k seen ≡ false
    → 4095 < length ds
    → (let kept = dropped_first q net (order ++ k ∷ []) (include k seen) in
        Remembers kept.0 kept.1 (k ∷ ds))
kept_drop q net k [] seen ds h new long = absurd (omega (arith, length-remembered [] seen ds h))
kept_drop q net k (y ∷ rest) seen ds h new long =
    let (e, _, _, _) = h in
    let (z, first) = first_of 4095 ds long in
    full k y rest seen ds h new
      (first ∙ ap (λ t. t ∷ reverse (take 4095 ds)) (sym (first_key (e ∙ first))))

kept-Remembers :
    (q : Toolkit) (net : Network) (k : Text) (order seen ds : List Text)
    → Remembers order seen ds
    → has k seen ≡ false
    → (let kept = kept_with q net k order seen in Remembers kept.0 kept.1 (k ∷ ds))
kept-Remembers q net k order seen ds h new =
    let n = length-remembered order seen ds h in
    let m = length-append order (k ∷ []) in
    if_case (λ (r : List Text × List Text). Remembers r.0 r.1 (k ∷ ds))
      (ltb window (length (order ++ k ∷ [])))
      (λ long. kept_drop q net k order seen ds h new (long_enough _ _ _ n m long))
      (λ short. roomy k order seen ds h new (short_enough _ _ _ n m short))

delivered_other :
    (e : Effect) (es : List Effect) → is_delivery e ≡ false → delivered (e ∷ es) ≡ delivered es
delivered_other (packet_received cid channel peer kind d) es h = cc
delivered_other _ es h = refl

module _ (q : Toolkit) (net : Network) where
  HasMemory-Sends : Sends HasMemory
  HasMemory-Sends = record {
    on_links = λ n ls h. h;
    on_note = λ e n other h.
        subst (λ ds. Remembers n.message_order n.seen_messages ds)
          (sym (delivered_other e n.out other)) h;
  }

  receive_packet-HasMemory :
      (n : Node) (link : Link) (msg : Message)
      → HasMemory n
      → HasMemory (receive_packet q net link msg n)
  unfolding receive_packet remember
  receive_packet-HasMemory n link msg h =
      let key = message_key link.peer msg.community msg.packet.id in
      let valid = valid_packet q net msg.community msg.channel msg.kind msg.packet link.peer n in
      if_case HasMemory
        (leb (length msg.packet.id) 64
          && (not (is_empty msg.packet.id) && (not (has key n.seen_messages) && valid)))
        (λ ok.
          kept-Remembers q net key n.message_order n.seen_messages (delivered n.out) h
            (ground arith))
        (λ _. h)

  HasMemory-Stable : Stable q net HasMemory
  HasMemory-Stable = record {
    sends = HasMemory-Sends;
    on_models = λ n ms h. h;
    on_left = λ n cid h. h;
    on_presence = λ n ps h. h;
    on_joins = λ n ps js ss rs h. h;
    on_voice =
        set_voice_keeps q net HasMemory (record { sends = HasMemory-Sends; on_mine = λ n ms h. h });
    on_wires = λ n ps rs next recovering h. h;
    on_stop = λ n h. h;
    on_packet = receive_packet-HasMemory;
  }

  -- A node that remembers exactly the last 4096 packets that it has handed on, none of them handed on while it was among
  -- the 4096 before it, does so after any sequence of these
  -- events: a link comes in, its TLS is up, it has messages, it has been written to, or it ends; the timer fires; the
  -- validation of a snapshot ends; and the program creates or joins a community, asks for an invitation, edits, speaks,
  -- moves a member, sends a packet or a frame, or stops the node.
  pub occur_all-HasMemory :
      (es : List Event) (n : Node) → HasMemory n → HasMemory (occur_all q net es n)
  occur_all-HasMemory = occur_all_keeps q net HasMemory HasMemory-Stable
