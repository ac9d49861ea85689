-- ===== src/Images/Tests.antt =====
-- The image theorems at concrete inputs, and runs of the code.
use disquisition.Common.{
  ℕ, min, ◌+◌, ◌*◌, ◌≡◌, ap, refl, length, [], ◌∷◌, arith, Text, codes, All, get_or, text_beq,
  pair_beq,
}
use disquisition.Common.Maps.{lookup, insert, erase}
use disquisition.Images.Split.{split_image}
use disquisition.Images.Assembler.{
  Key, empty, add, clear, drop, drop_where, expire, remove, mine, place, by_start, drop_oldest,
  make_room, is_refused, restart, begin, store,
}
use disquisition.Images.Assembler.Drop.{Inv, empty-Inv}
use disquisition.Images.Assembler.Invariant.{add-Inv}
use disquisition.Images.Assembler.Arrivals.{Arrival, images, images-split_image}
use disquisition.Images.Assembler.Delivery.{numbered, images-numbered}

abbrev picture : Text
picture = codes "GIF89a"

abbrev whole_picture : Arrival
whole_picture = record {
  key = (codes "ann", 4);
  index = 0;
  count = 1;
  chunk = picture;
  now_ms = 10;
}

-- Another sender's transfer under the same number.
abbrev other_picture : Arrival
other_picture = record whole_picture { key = (codes "bob", 4); chunk = codes "x" }

pictures : images (codes "ann", 4) (other_picture ∷ whole_picture ∷ []) empty ≡ picture ∷ []
unfolding images add clear drop drop_where expire remove mine place by_start drop_oldest make_room
    is_refused restart begin store lookup insert erase text_beq pair_beq
pictures = refl

images-split_image_example :
    All
      (λ image. image ≡ picture)
      (images (codes "ann", 4) (other_picture ∷ whole_picture ∷ []) empty)
unfolding split_image
images-split_image_example =
    images-split_image (codes "ann", 4) picture (other_picture ∷ whole_picture ∷ [])
      (
        (λ same. absurd (omega (arith, ap (λ (k : Key). get_or k.0 0 0) same))),
        ((λ same. (refl, refl)), tt),
      )

add-Inv_example : Inv (add (codes "ann") 4 0 1 picture 10 empty).0
add-Inv_example = add-Inv (codes "ann") 4 0 1 picture 10 empty empty-Inv

-- Each chunk comes a second after the one before, up to the first minute.
abbrev steady : ℕ → ℕ
steady i = min i 60 * 1000 + 5

images-numbered_example :
    images
      (codes "ann", 4)
      (numbered (codes "ann", 4) (length (split_image picture)) steady 0 (split_image picture))
      empty
    ≡ picture ∷ []
images-numbered_example =
    images-numbered (codes "ann", 4) picture steady (omega arith) (omega arith) (λ i. omega arith)
