-- ===== src/Storage/Steps.antt =====
-- What the result of a method tells of its conversions and of the keys that it needs.
use cke.Prelude.{◌≡◌, refl, Option, none, some}
use cke.Etcd.{Etcd, World, Call, returns, ◌>>=◌}
use cke.Etcd.Calls.{HasEnded}
use cke.Storage.{require, unmissed}

module _ (E : Etcd) where
  pub require-ok :
      {B C : Type 0} (o : Option B) (k : B → Call E C) (w w' : World E) (c : C)
      → (require E o >>= k) w ≡ (returns c, w')
      → (b : B) × (o ≡ some b) × (k b w ≡ (returns c, w'))
  require-ok none k w w' c e = cc
  require-ok (some b) k w w' c e = (b, refl, e)

  pub require-HasEnded :
      {B C : Type 0} (o : Option B) (k : B → Call E C) (w : World E)
      → ((b : B) → o ≡ some b → HasEnded (k b w).0)
      → HasEnded ((require E o >>= k) w).0
  require-HasEnded none k w h = tt
  require-HasEnded (some b) k w h = h b refl

  pub unmissed-ok :
      {B C : Type 0} (o : Option B) (k : B → Call E C) (w w' : World E) (c : C)
      → (unmissed E o >>= k) w ≡ (returns c, w')
      → (b : B) × (o ≡ some b) × (k b w ≡ (returns c, w'))
  unmissed-ok none k w w' c e = cc
  unmissed-ok (some b) k w w' c e = (b, refl, e)

  pub unmissed-HasEnded :
      {B C : Type 0} (o : Option B) (k : B → Call E C) (w : World E)
      → ((b : B) → o ≡ some b → HasEnded (k b w).0)
      → HasEnded ((unmissed E o >>= k) w).0
  unmissed-HasEnded none k w h = tt
  unmissed-HasEnded (some b) k w h = h b refl
