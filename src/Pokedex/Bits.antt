-- ===== src/Pokedex/Bits.antt =====
-- What the code relies on in the pksav library's Pokédex functions: a bit that is set reads back, and no
-- other bit changes.
use libpkmn.Common.{ℕ, ◌≡◌, ◌≢◌, Bool}
use libpkmn.Pokedex.{Native}

pub record IsBits {B : Type 0} (n : Native B) : Type 0 where
  pub seen-set_seen : (b : B) (i : ℕ) (v : Bool) → n.seen (n.set_seen b i v) i ≡ v
  pub seen-set_seen_ne :
      (b : B) (i j : ℕ) (v : Bool) → j ≢ i → n.seen (n.set_seen b i v) j ≡ n.seen b j
  pub owned-set_seen : (b : B) (i j : ℕ) (v : Bool) → n.owned (n.set_seen b i v) j ≡ n.owned b j
  pub owned-set_owned : (b : B) (i : ℕ) (v : Bool) → n.owned (n.set_owned b i v) i ≡ v
  pub owned-set_owned_ne :
      (b : B) (i j : ℕ) (v : Bool) → j ≢ i → n.owned (n.set_owned b i v) j ≡ n.owned b j
  pub seen-set_owned : (b : B) (i j : ℕ) (v : Bool) → n.seen (n.set_owned b i v) j ≡ n.seen b j
