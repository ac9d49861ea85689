-- ===== src/Images/Assembler.antt =====
-- `ImageAssembler`. Times and byte counts are natural numbers: the clock does not run below zero, and a
-- time before a transfer's start makes it no older than one at its start, as in the source. The sort
-- by starting time leaves equal times in the order of the map.
pub mod Drop
pub mod Room
pub mod Ready
pub mod Invariant
pub mod Complete
pub mod Arrivals
pub mod Delivery
use disquisition.Common.{
  ℕ, zero, suc, ◌+◌, ◌-◌, ◌*◌, ◌≤◌, ◌<◌, ◌≡◌, refl, Bool, true, false, not, ◌&&◌, ◌||◌, Option,
  none, some, List, [], ◌∷◌, ◌++◌, arith, Text, text_eq, Eq, ◌==◌, nat_eq, nat_beq, pair_beq,
  pair_beq_iff, ltb, length, get_or, set, replicate, if◌then◌else◌,
}
use disquisition.Common.Maps.{lookup, insert, erase}
use disquisition.Images.Split.{image_chunk_size, max_image_chunks, joined}

abbrev pub max_transfers_per_sender : ℕ
max_transfers_per_sender = 2

abbrev pub max_buffered_bytes : ℕ
max_buffered_bytes = 24 * 1024 * 1024

abbrev pub transfer_timeout_ms : ℕ
transfer_timeout_ms = 120000

-- A sender and the number that it gave the transfer.
abbrev pub Key : Type 0
Key = Text × ℕ

instance abbrev pub key_eq : Eq Key
key_eq = record { beq = pair_beq; beq_iff = pair_beq_iff }

-- An empty chunk has not come yet.
pub record Partial : Type 0 where
  pub chunks : List Text
  pub received : ℕ
  pub bytes : ℕ
  pub started_ms : ℕ

abbrev pub Transfers : Type 0
Transfers = List (Key × Partial)

pub record Assembler : Type 0 where
  pub transfers : Transfers
  pub buffered_bytes : ℕ

abbrev pub empty : Assembler
empty = record { transfers = []; buffered_bytes = 0 }

abbrev drop_found : Key → Assembler → Option Partial → Assembler
drop_found k a none = a
drop_found k a (some p) = record {
  transfers = erase k a.transfers;
  buffered_bytes = a.buffered_bytes - p.bytes;
}

-- The source drops by iterator; a key that is gone is not dropped again.
unfoldable pub drop : Key → Assembler → Assembler
drop k a = drop_found k a (lookup k a.transfers)

-- A walk over the entries that drops those that the test holds of.
unfoldable pub drop_where : (Key → Partial → Bool) → Transfers → Assembler → Assembler
drop_where test [] a = a
drop_where test ((k, p) ∷ m) a = drop_where test m (if test k p then drop k a else a)

unfoldable pub expire : ℕ → Assembler → Assembler
expire now_ms a = drop_where (λ k p. ltb transfer_timeout_ms (now_ms - p.started_ms)) a.transfers a

unfoldable pub remove : Text → Assembler → Assembler
remove sender a = drop_where (λ k p. k.0 == sender) a.transfers a

unfoldable pub clear : Assembler → Assembler
clear a = empty

-- The entries of one sender.
unfoldable pub mine : Text → Transfers → Transfers
mine sender [] = []
mine sender ((k, p) ∷ m) = if k.0 == sender then (k, p) ∷ mine sender m else mine sender m

unfoldable pub place : Key × Partial → Transfers → Transfers
place (k, p) [] = (k, p) ∷ []
place (k, p) ((j, q) ∷ m) =
    if ltb q.started_ms p.started_ms then (j, q) ∷ place (k, p) m else (k, p) ∷ (j, q) ∷ m

-- Oldest first.
unfoldable pub by_start : Transfers → Transfers
by_start [] = []
by_start (t ∷ m) = place t (by_start m)

-- Drops all but the last, which leaves room for one more of the two that a sender may have.
unfoldable pub drop_oldest : Transfers → Assembler → Assembler
drop_oldest [] a = a
drop_oldest (t ∷ []) a = a
drop_oldest ((k, p) ∷ u ∷ m) a = drop_oldest (u ∷ m) (drop k a)

unfoldable pub make_room : Text → Assembler → Assembler
make_room sender a = drop_oldest (by_start (mine sender a.transfers)) a

-- The guard of `add`: `count` bounds the size, since every chunk but the last is full.
unfoldable pub is_refused : ℕ → ℕ → Text → Bool
is_refused index count chunk =
    nat_beq count 0
    || ltb max_image_chunks count
    || not (ltb index count)
    || nat_beq (length chunk) 0
    || ltb image_chunk_size (length chunk)
    || (ltb (index + 1) count && not (nat_beq (length chunk) image_chunk_size))

-- A transfer whose count of chunks differs starts again.
abbrev restart_found : Key → ℕ → Assembler → Option Partial → Assembler
restart_found k count a none = a
restart_found k count a (some p) = if nat_beq (length p.chunks) count then a else drop k a

unfoldable pub restart : Key → ℕ → Assembler → Assembler
restart k count a = restart_found k count a (lookup k a.transfers)

abbrev pub fresh : ℕ → ℕ → Partial
fresh count now_ms = record {
  chunks = replicate count [];
  received = 0;
  bytes = 0;
  started_ms = now_ms;
}

-- The transfer to add to, begun if need be.
abbrev begin_found : Key → ℕ → ℕ → Assembler → Option Partial → Assembler × Partial
begin_found k count now_ms a (some p) = (a, p)
begin_found k count now_ms a none =
    let b = make_room k.0 a in
    (record b { transfers = insert k (fresh count now_ms) b.transfers }, fresh count now_ms)

unfoldable pub begin : Key → ℕ → ℕ → Assembler → Assembler × Partial
begin k count now_ms a = begin_found k count now_ms a (lookup k a.transfers)

abbrev pub with_chunk : Partial → ℕ → Text → Partial
with_chunk p index chunk = record p {
  chunks = set p.chunks index chunk;
  bytes = p.bytes + length chunk;
  received = p.received + 1;
}

-- Writes the chunk, and returns the image when none is missing.
unfoldable pub store : Key → ℕ → ℕ → Text → Assembler → Partial → Assembler × Option Text
store k index count chunk a p =
    let q = with_chunk p index chunk in
    let b : Assembler = record {
      transfers = insert k q a.transfers;
      buffered_bytes = a.buffered_bytes + length chunk;
    } in
    if not (nat_beq (length (get_or p.chunks index [])) 0)
    then (a, none)
    else if ltb max_buffered_bytes (a.buffered_bytes + length chunk)
    then (drop k a, none)
    else if ltb q.received count
    then (b, none)
    else (drop k b, some (joined q.chunks))

unfoldable pub add : Text → ℕ → ℕ → ℕ → Text → ℕ → Assembler → Assembler × Option Text
add sender transfer_id index count chunk now_ms a =
    let b = expire now_ms a in
    let k : Key = (sender, transfer_id) in
    let (c, p) = begin k count now_ms (restart k count b) in
    if is_refused index count chunk then (b, none) else store k index count chunk c p
