-- ===== src/Images/Assembler/Arrivals.antt =====
-- The images that a row of arrivals returns.
use disquisition.Common.{
  ℕ, ◌≡◌, refl, subst, Option, none, some, List, [], ◌∷◌, Text, text_eq, ◌==◌, if◌then◌else◌,
  Bool-cases, inl, inr, All,
}
use disquisition.Common.Maps.{lookup}
use disquisition.Images.Split.{joined, split_image, joined-split_image}
use disquisition.Images.Assembler.{Key, key_eq, Assembler, empty, add}
use disquisition.Images.Assembler.Drop.{Inv, empty-Inv}
use disquisition.Images.Assembler.Invariant.{add-Inv}
use disquisition.Images.Assembler.Complete.{Agrees, Fits, add-Exact}

-- A chunk as it comes from the network.
pub record Arrival : Type 0 where
  pub key : Key
  pub index : ℕ
  pub count : ℕ
  pub chunk : Text
  pub now_ms : ℕ

abbrev pub arrive : Arrival → Assembler → Assembler × Option Text
arrive c a = add c.key.0 c.key.1 c.index c.count c.chunk c.now_ms a

-- An image returned for the key `j`, in front of those returned for `k` later.
abbrev pub returned : Key → Key → Option Text → List Text → List Text
returned k j none rest = rest
returned k j (some image) rest = if j == k then image ∷ rest else rest

-- The images returned for a key along a row of arrivals.
unfoldable pub images : Key → List Arrival → Assembler → List Text
images k [] a = []
images k (c ∷ cs) a = let r = arrive c a in returned k c.key r.1 (images k cs r.0)

returned-All :
    (k j : Key) (whole : Text) (o : Option Text) (rest : List Text)
    → (j ≡ k → (image : Text) → o ≡ some image → image ≡ whole)
    → All (λ image. image ≡ whole) rest
    → All (λ image. image ≡ whole) (returned k j o rest)
returned-All k j whole none rest h g = g
returned-All k j whole (some image) rest h g = elim (Bool-cases (j == k)) [
  | inl same ↦ rw same (h ((key_eq.beq_iff j k).0 same) image refl, g)
  | inr other ↦ rw other g
]

images_exact :
    (k : Key) (es : List Text) (cs : List Arrival) (a : Assembler)
    → Inv a
    → Agrees k es a
    → All (λ c. Fits k es c.key c.index c.count c.chunk) cs
    → All (λ image. image ≡ joined es) (images k cs a)
unfolding images
images_exact k es [] a v h fits = tt
images_exact k es (c ∷ cs) a v h (fit, fits) =
    let (after, whole) =
      add-Exact k es c.key.0 c.key.1 c.index c.count c.chunk c.now_ms a v h fit in
    let rest =
      images_exact k es cs (arrive c a).0
        (add-Inv c.key.0 c.key.1 c.index c.count c.chunk c.now_ms a v) after fits in
    returned-All k c.key (joined es) _ _ whole rest

-- However the chunks of an image arrive, in whatever order, repeated, lost, or among the chunks of
-- other transfers (of the same sender too) that say whatever they like, an image that the assembler
-- returns for the transfer is, byte by byte, the image that `splitImage` cut.
pub images-split_image :
    (k : Key) (bytes : Text) (cs : List Arrival)
    → All (λ c. Fits k (split_image bytes) c.key c.index c.count c.chunk) cs
    → All (λ image. image ≡ bytes) (images k cs empty)
images-split_image k bytes cs fits =
    subst (λ b. All (λ image. image ≡ b) (images k cs empty)) (joined-split_image bytes)
      (images_exact k (split_image bytes) cs empty empty-Inv (λ p e. absurd (unfold lookup in cc))
        fits)
