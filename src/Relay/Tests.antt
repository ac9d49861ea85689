-- ===== src/Relay/Tests.antt =====
-- The relay's theorems at concrete inputs, and runs of the code.
use disquisition.Common.{
  ℕ, ◌≡◌, ◌⊎◌, refl, true, none, some, List, [], ◌∷◌, ◌++◌, Text, text_eq, nat_eq, text_beq, codes,
  ◌>>=◌, replicate,
}
use disquisition.Common.Maps.{lookup, insert, erase}
use disquisition.Protocol.Frame.{append_u32}
use disquisition.Protocol.Records.{all_hex, is_hex}
use disquisition.Relay.Wire.{frame, taken, take_frame, take_frame-frame}
use disquisition.Relay.Router.{
  Router, Request, route, is_peer_id, register, disconnected, bridge, modify, erase_value, forget,
}
use disquisition.Relay.Router.Events.{start, new_session, close}
use disquisition.Relay.Router.Invariant.{Inv}
use disquisition.Relay.Router.History.{
  Event, connected, received_bytes, hung_up, history, history-Inv,
}
use disquisition.Relay.Router.Names.{route_sound}
use disquisition.Relay.Router.Closing.{sessions-close}

-- A reader of JSON that takes every text for the same request.
abbrev ping : Request
ping = record {
  kind = codes "ping";
  nonce = [];
  peer = [];
  communities = [];
  target = [];
  community = [];
  ticket = [];
}

abbrev empty_object : Text
empty_object = codes "{}"

take_frame-frame_example :
    take_frame (λ _. some ping) ((0 ∷ 0 ∷ 0 ∷ 2 ∷ empty_object) ++ 9 ∷ []) ≡ taken ping (9 ∷ [])
unfolding frame append_u32
take_frame-frame_example =
    take_frame-frame (λ _. some ping) empty_object (0 ∷ 0 ∷ 0 ∷ 2 ∷ empty_object) (9 ∷ []) ping refl
      refl

abbrev events : List Event
events =
    connected (λ _. 0) 10
    ∷ received_bytes (λ _. 0) 20 0 (codes "DQC1\n")
    ∷ connected (λ _. 0) 30
    ∷ hung_up 0
    ∷ []

abbrev codes_drawn : ℕ → Text
codes_drawn n = n ∷ []

history-Inv_example : Inv (history (λ _. some ping) (λ _ _. true) codes_drawn events start)
history-Inv_example = history-Inv (λ _. some ping) (λ _ _. true) codes_drawn events

-- Three sessions.
abbrev three : Router
three = record start {
  sessions =
      (0, new_session (codes "a") 0)
      ∷ (1, new_session (codes "b") 0)
      ∷ (2, new_session (codes "c") 0)
      ∷ [];
  fresh = 3;
}

sessions-close_example : (close three).sessions ≡ []
sessions-close_example = sessions-close three

abbrev as_peer : Text → Request
as_peer p = record ping { kind = codes "register"; peer = p }

-- A session that registers under two names leaves the first behind when it goes.
left_registered :
    (disconnected 0
      (register 0 (as_peer (codes "y")) (register 0 (as_peer (codes "x")) three))).registered
    ≡ (codes "x", 0) ∷ []
unfolding disconnected register modify forget erase_value lookup insert erase text_beq
left_registered = refl

-- The session 0 calls the session 1 twice, and 1 and 2 accept as the same peer. When 0 goes, 1 is still paired with it.
abbrev called_twice : Router
called_twice = bridge 0 (codes "x") 2 (bridge 0 (codes "x") 1 three)

left_paired : (lookup 1 (disconnected 0 called_twice).sessions >>= λ s. s.paired) ≡ some 0
unfolding disconnected bridge modify forget erase_value lookup insert erase text_beq
left_paired = refl

abbrev id_x : Text
id_x = replicate 64 97

abbrev signed_on : Request
signed_on = record (as_peer id_x) { nonce = codes "a" }

route_sound_example :
    (lookup id_x three.registered ≡ some 0)
    ⊎ ((lookup id_x three.registered ≡ none)
        × (◌≡◌ {A = ℕ} 0 0)
        × (true ≡ true)
        × (codes "a" ≡ codes "a"))
unfolding route register is_peer_id all_hex is_hex modify lookup insert text_beq
route_sound_example =
    route_sound (λ _ _. true) codes_drawn 0 (new_session (codes "a") 0) signed_on three id_x 0 refl
