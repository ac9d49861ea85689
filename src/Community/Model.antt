-- ===== src/Community/Model.antt =====
-- community/model.cpp: the log of signed operations that a community is, and the state that is rebuilt from it. An object
-- of JSON is the record of the values that the code reads from it, a missing one read as Qt reads it; an error that is
-- thrown is `none`. What Qt and OpenSSL do stands in the record `Toolkit`, which the operations are given.
pub mod Log
pub mod Authority
pub mod Replay
pub mod State
pub mod Changes
pub mod Union
pub mod Merging
pub mod Members
pub mod Owner
pub mod Sound
pub mod Rights
pub mod Ancestry
pub mod Deletion
use disquisition.Common.{
  ℕ, zero, suc, ◌+◌, ◌-◌, ◌*◌, ◌/◌, ◌%◌, ◌^◌, ◌≤◌, ◌<◌, min, max, ◌≡◌, ◌≢◌, ◌↔◌, ◌⊎◌, inl, inr,
  refl, sym, ◌∙◌, ap, ap₂, subst, Bool, true, false, not, ◌&&◌, ◌||◌, Option, none, some, List, [],
  ◌∷◌, ◌++◌, arith, Text, text_eq, nat_eq, text_beq, codes, Eq, ◌==◌, beq_refl, beq_sym, ltb, leb,
  nat_beq, if◌then◌else◌, Bool-cases, Option-cases, ◌>>=◌, ◌>>◌, guard, &&_true, length, take, drop,
  map,
}
use disquisition.Relay.Router.{is_peer_id}

pub data Field : Type 0 where
  absent : Field
  string : Text → Field
  other : Field

abbrev pub to_text : Field → Text
to_text (string t) = t
to_text _ = []

pub record Channel : Type 0 where
  pub id : Text
  pub name : Text
  pub type : Text
  pub topic : Text

pub record Member : Type 0 where
  pub id : Text
  pub name : Text
  pub endpoint : Text
  pub admin : Bool
  pub bio : Text
  pub avatar : Text

pub record Intent : Type 0 where
  pub community : Text
  pub peer : Text
  pub name : Text
  pub endpoint : Text
  pub invite : Text
  pub host : Text
  pub nonce : Text
  pub request : Text
  pub proof : Text
  pub signature : Text

-- The `data` of an operation: `enabled` is there if it is a Boolean, and `peers` if it is an array.
pub record Details : Type 0 where
  pub name : Text
  pub member_name : Text
  pub endpoint : Text
  pub channels : List Channel
  pub bio : Field
  pub avatar : Field
  pub peer : Text
  pub enabled : Option Bool
  pub intent : Intent
  pub hash : Text
  pub code : Text
  pub bytes : Text
  pub id : Text
  pub type : Text
  pub topic : Text
  pub peers : Option (List Text)

pub record Operation : Type 0 where
  pub version : ℕ
  pub community : Text
  pub author : Text
  pub clock : ℕ
  pub parents : List Text
  pub kind : Text
  pub authority : Text
  pub details : Details
  pub signature : Text

-- What `QUrl` reads from a text.
pub record Url : Type 0 where
  pub is_valid : Bool
  pub host : Text
  pub scheme : Text
  pub port : ℕ
  pub user_info : Text
  pub query : Text
  pub fragment : Text
  pub path : Text

-- Qt and OpenSSL.
pub record Toolkit : Type 0 where
  pub is_blank : Text → Bool
  pub is_control : ℕ → Bool
  pub url_of : Text → Url
  pub uuid_of : Text → Option Text
  pub from_base64 : Text → Text
  pub strict_base64 : Text → Option Text
  pub from_hex : Text → Text
  pub digest : Text → Text
  pub operation_id : Operation → Text
  pub verify_operation : Operation → Bool
  pub sign : Text → Operation → Operation
  pub intent_id : Intent → Text
  pub verify_intent : Intent → Bool
  pub proof_of : Intent → Text → Text
  pub size_of : Text → Text → List (Text × Operation) → ℕ

abbrev pub max_metadata_bytes : ℕ
max_metadata_bytes = 8 * 1024 * 1024

abbrev pub max_operations : ℕ
max_operations = 8192

abbrev pub max_icon_bytes : ℕ
max_icon_bytes = 128 * 1024

abbrev pub max_members : ℕ
max_members = 1024

abbrev pub max_bio_length : ℕ
max_bio_length = 500

abbrev pub max_avatar_bytes : ℕ
max_avatar_bytes = 32 * 1024

abbrev pub is_empty : Text → Bool
is_empty t = nat_beq (length t) 0

module _ (q : Toolkit) where
  unfoldable pub uuid : Text → Bool
  uuid text = elim (q.uuid_of text) [ none ↦ false | some t ↦ t == text ]

  abbrev pub any_control : Text → Bool
  any_control [] = false
  any_control (c ∷ s) = q.is_control c || any_control s

  unfoldable pub label : Text → ℕ → Bool
  label text maximum =
      not (q.is_blank text) && (leb (length text) maximum && not (any_control text))

  -- A control character but for the ends of lines and the tabs.
  abbrev pub any_odd_control : Text → Bool
  any_odd_control [] = false
  any_odd_control (c ∷ s) =
      (q.is_control c && (not (nat_beq c 10) && not (nat_beq c 9))) || any_odd_control s

  abbrev pub valid_bio : Field → Bool
  valid_bio absent = true
  valid_bio (string t) = leb (length t) max_bio_length && not (any_odd_control t)
  valid_bio other = false

  abbrev pub decoded_fits : Option Text → Bool
  decoded_fits none = false
  decoded_fits (some bytes) = leb (length bytes) max_avatar_bytes

  abbrev pub valid_avatar : Field → Bool
  valid_avatar absent = true
  valid_avatar (string t) =
      leb (length t) ((max_avatar_bytes + 2) / 3 * 4) && decoded_fits (q.strict_base64 t)
  valid_avatar other = false

  unfoldable pub profile_details : Details → Bool
  profile_details d = valid_bio d.bio && valid_avatar d.avatar

  unfoldable pub valid_endpoint : Text → Bool
  valid_endpoint endpoint =
      let url = q.url_of endpoint in
      leb (length endpoint) 512
      && (url.is_valid
          && (not (is_empty url.host)
              && ((url.scheme == codes "tcp" || url.scheme == codes "relay")
                  && (ltb 0 url.port
                      && (leb url.port 65535
                          && (is_empty url.user_info
                              && (is_empty url.query
                                  && (is_empty url.fragment
                                      && (is_empty url.path || url.path == codes "/")))))))))

  unfoldable pub valid_intent : Intent → Text → Bool
  valid_intent intent id =
      intent.community == id
      && (is_peer_id intent.peer
          && (label intent.name 64
              && (valid_endpoint intent.endpoint
                  && (is_peer_id intent.invite && q.verify_intent intent))))

  unfoldable pub invite_proof : Intent → Operation → Bool
  invite_proof intent grant = q.from_hex intent.proof == q.proof_of intent grant.details.code

  -- The grant of the invitation that an intent names.
  abbrev pub grant_holds : Intent → Option Operation → Bool
  grant_holds intent none = false
  grant_holds intent (some grant) = invite_proof intent grant
