-- ===== src/Messaging/World/Triples.antt =====
-- The rules of Prelude/Action/Triples at the state of a reader, with one for the answers of others.
use ingestkit.Prelude.{ℕ, suc}
use ingestkit.Messaging.World.{Failure, World, M, ◌>>=◌, ask}
pub use ingestkit.Prelude.Action.Triples.{Post, returned, failed, Post-bind, Post-weaken}

module _ {A B : Type 0} {Q : B → World → Type 0} {E : Failure → World → Type 0} where
  pub Post-ask :
      (f : ℕ → A) (k : A → M B) (w : World)
      → Post Q E (k (f w.tick) (record w { tick = suc w.tick }))
      → Post Q E ((ask f >>= k) w)
  unfolding ◌>>=◌ ask
  Post-ask f k w h = h
