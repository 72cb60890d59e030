-- ===== src/Prelude/Action/Triples.antt =====
-- What holds of an action's outcome, whether it returns or fails, with a rule for each way to
-- compose actions.
use ingestkit.Prelude.Tests.{Result, ok, err}
use ingestkit.Prelude.Action.{Action, continue, ◌>>=◌}

-- `Q` of the result and the state after a return, `E` of the error and the state after one.
pub data Post {W F A : Type 0} (Q : A → W → Type 0) (E : F → W → Type 0)
    : Result F A × W → Type 0 where
  returned : {a : A} {w : W} → Q a w → Post Q E (ok a, w)
  failed : {f : F} {w : W} → E f w → Post Q E (err f, w)

module _ {W F A B : Type 0} {R : A → W → Type 0} {Q : B → W → Type 0} {E : F → W → Type 0} where
  Post-continue :
      (r : Result F A × W) (f : A → Action W F B)
      → Post R E r
      → ((a : A) (w : W) → R a w → Post Q E (f a w))
      → Post Q E (continue r.0 f r.1)
  Post-continue r f (returned q) k = k _ _ q
  Post-continue r f (failed e) k = failed e

  pub Post-bind :
      (m : Action W F A) (f : A → Action W F B) (w : W)
      → Post R E (m w)
      → ((a : A) (w' : W) → R a w' → Post Q E (f a w'))
      → Post Q E ((m >>= f) w)
  unfolding ◌>>=◌
  Post-bind m f w h k = Post-continue (m w) f h k

module _ {W F A : Type 0} {Q R : A → W → Type 0} {E G : F → W → Type 0} where
  pub Post-weaken :
      {r : Result F A × W}
      → Post Q E r
      → ((a : A) (w : W) → Q a w → R a w)
      → ((f : F) (w : W) → E f w → G f w)
      → Post R G r
  Post-weaken (returned q) h k = returned (h _ _ q)
  Post-weaken (failed e) h k = failed (k _ _ e)
