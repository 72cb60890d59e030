-- ===== src/Prelude/Action.antt =====
-- Code that changes a state of type `W` and may return an error of type `F`, for do blocks. A
-- component fixes both types, and adds its own operations.
pub mod Triples
use ingestkit.Prelude.Tests.{Result, ok, err}

abbrev pub Action : Type 0 → Type 0 → Type 0 → Type 0
Action W F A = W → Result F A × W

module _ {W F : Type 0} where
  abbrev pub continue : {A B : Type 0} → Result F A → (A → Action W F B) → Action W F B
  continue (ok a) f w = f a w
  continue (err e) f w = (err e, w)

  infixl 5 ◌>>=◌ ◌>>◌
  unfoldable pub ◌>>=◌ : {A B : Type 0} → Action W F A → (A → Action W F B) → Action W F B
  ◌>>=◌ m f w = let (r, w') = m w in continue r f w'

  abbrev pub ◌>>◌ : {B : Type 0} → Action W F (Unit {0}) → Action W F B → Action W F B
  m >> k = m >>= λ _. k

  unfoldable pub pure : {A : Type 0} → A → Action W F A
  pure a w = (ok a, w)

  unfoldable pub fail : {A : Type 0} → F → Action W F A
  fail e w = (err e, w)
